-- ===== src/Aws/Results/Limits.antt =====
-- How many rows a query with a limit gives.
use shim_service.Base.{
  ℕ, zero, suc, ◌+◌, ◌-◌, ◌≤◌, ◌<◌, ◌≡◌, refl, Bool, true, false, Option, none, some, List, [], ◌∷◌,
  arith, ltb, eqb, length, get_elem?, Option-cases, Bool-cases, inl, inr, subst,
}
use shim_service.Aws.Results.{
  Client, Left, fetch, query_function, ResultSet, new_result_set, Next, stop, no_more, index_error,
  row, received, more_items, has_next, take_item, item_at, take_next, next, stop_or, next_row,
  again, rows_of,
}

module _ {K I : Type 0} (client : Client K I) where
  -- The service answers no more items than the limit that it is given.
  abbrev pub Honours : Type 0
  Honours =
      (l : ℕ) (k : Option K) (s : client.State) → length (client.query (some l) k s).0.items ≤ l

  abbrev left_of : Option (List I) → ℕ → ℕ
  left_of none counter = 0
  left_of (some items) counter = length items - counter

  -- What the page at hand and the limit leave is at most `n`.
  abbrev Bounded : ℕ → ResultSet K I → Left client → Type 0
  Bounded n rs (none, s) = ⊥
  Bounded n rs (some l, s) = left_of rs.items rs.counter + l ≤ n

  Bounded-flag :
      (rs : ResultSet K I) (flag : Bool) (s : Left client) (n : ℕ)
      → Bounded n rs s
      → Bounded n (record rs { done = flag }) s
  Bounded-flag rs flag (none, s) n h = h
  Bounded-flag rs flag (some m, s) n h = h

  module _ (honours : Honours) where
    -- A fetch of a limited query leaves no more than its limit.
    received-Bounded :
        (rs : ResultSet K I) (key : Option K) (l n : ℕ) (s : client.State)
        → left_of rs.items rs.counter ≡ 0
        → l ≤ n
        → let (p, s') =
            received (query_function client) rs (query_function client key (some l, s)) in
          Bounded n p.1 s'
    unfolding received query_function
    received-Bounded rs key l n s empty le = elim (Bool-cases (ltb l 1)) [
      | inl none_left ↦ rw none_left (omega (arith, empty, le))
      | inr more ↦ rw (more, fetch) (ground (arith, honours l key s))
    ]

    more_items-Bounded :
        (items : Option (List I)) (n : ℕ) (rs : ResultSet K I) (s : Left client)
        → rs.items ≡ items
        → Bounded n rs s
        → let (p, s') = more_items (query_function client) items rs s in Bounded n p.1 s'
    unfolding more_items
    more_items-Bounded items n rs (none, s) e h = elim h [ ]
    more_items-Bounded none n rs (some l, s) e h =
        received-Bounded rs rs.next_key l n s (rw e refl) (omega (arith, h))
    more_items-Bounded (some items) n rs (some l, s) e h =
        elim (Bool-cases (eqb rs.counter (length items))) [
          | inl last_ ↦ elim (Option-cases rs.next_key) [
            | inl k ↦ rw (last_, k) h
            | inr (k, k_is) ↦
                rw (last_, k_is)
                  (received-Bounded _ (some k) l n s (rw e (ground arith)) (omega (arith, h)))
          ]
          | inr inside ↦ rw inside h
        ]

    has_next-Bounded :
        (n : ℕ) (rs : ResultSet K I) (s : Left client)
        → Bounded n rs s
        → let (p, s') = has_next (query_function client) rs s in Bounded n p.1 s'
    unfolding has_next
    has_next-Bounded n rs s h = elim (Bool-cases rs.done) [
      | inl over ↦ rw over (Bounded-flag rs true s n h)
      | inr open_ ↦ rw open_ (more_items-Bounded rs.items n _ s refl (Bounded-flag rs false s n h))
    ]

    module _ {R : Type 0} (from_ddb_item : I → R) where
      -- A row takes one off what is left.
      abbrev Spent : ℕ → (Next R × ResultSet K I) × Left client → Type 0
      Spent n ((row r, rs), s) = (m : ℕ) × (n ≡ suc m) × Bounded m rs s
      Spent n ((stop, rs), s) = Unit
      Spent n ((no_more, rs), s) = Unit
      Spent n ((index_error, rs), s) = Unit

      get_elem?-lt : (xs : List I) (c : ℕ) {i : I} → get_elem? xs c ≡ some i → c < length xs
      get_elem?-lt [] c h = cc
      get_elem?-lt (x ∷ xs) zero h = omega arith
      get_elem?-lt (x ∷ xs) (suc c) {i} h = omega (arith, get_elem?-lt xs c {i = i} h)

      take_item-Spent :
          (n : ℕ) (o : Option I) (rs : ResultSet K I) (s : Left client)
          → item_at (query_function client) from_ddb_item rs.items rs.counter ≡ o
          → Bounded n rs s
          → Spent n (take_item (query_function client) from_ddb_item o rs s)
      unfolding take_item item_at
      take_item-Spent n o rs (none, s) e h = elim h [ ]
      take_item-Spent n none rs (some l, s) e h = tt
      take_item-Spent n (some i) rs (some l, s) e h = elim (Option-cases rs.items) [
        | inl no_items ↦ cc
        | inr (items, items_are) ↦
            let found : get_elem? items rs.counter ≡ some i =
              subst (λ o. item_at (query_function client) from_ddb_item o rs.counter ≡ some i)
                items_are e in
            let fits : length items - rs.counter + l ≤ n =
              subst (λ o. left_of o rs.counter + l ≤ n) items_are h in
            let inside = get_elem?-lt items rs.counter {i = i} found in
            (n - 1, omega (arith, inside, fits), rw items_are (omega (arith, inside, fits)))
      ]

      next-Spent :
          (n : ℕ) (p : (Bool × ResultSet K I) × Left client)
          → Bounded n p.0.1 p.1
          → Spent n (take_next (query_function client) from_ddb_item p)
      unfolding take_next
      next-Spent n ((false, rs), s) h = tt
      next-Spent n ((true, rs), s) h = take_item-Spent n _ rs s refl h

      stop_or-Spent :
          (n : ℕ) (p : (Bool × ResultSet K I) × Left client)
          → Bounded n p.0.1 p.1
          → Spent n (stop_or (query_function client) from_ddb_item p)
      unfolding stop_or next
      stop_or-Spent n ((false, rs), s) h = tt
      stop_or-Spent n ((true, rs), s) h =
          next-Spent n (has_next (query_function client) rs s) (has_next-Bounded n rs s h)

      again-le :
          (n : ℕ) (p : (Next R × ResultSet K I) × Left client)
          (rest : ResultSet K I → Left client → (List R × Option (Next R)) × Left client)
          → Spent n p
          → ((m : ℕ) (rs : ResultSet K I) (s : Left client)
              → Bounded m rs s
              → length (rest rs s).0.0 ≤ m)
          → length (again (query_function client) from_ddb_item p rest).0.0 ≤ n
      unfolding again
      again-le n ((row r, rs), s) rest (m, e, h) ih = omega (arith, ih m rs s h, e)
      again-le n ((stop, rs), s) rest h ih = omega arith
      again-le n ((no_more, rs), s) rest h ih = omega arith
      again-le n ((index_error, rs), s) rest h ih = omega arith

      rows_of-Bounded :
          (fuel n : ℕ) (rs : ResultSet K I) (s : Left client)
          → Bounded n rs s
          → length (rows_of (query_function client) from_ddb_item fuel rs s).0.0 ≤ n
      unfolding rows_of next_row
      rows_of-Bounded zero n rs s h = omega arith
      rows_of-Bounded (suc fuel) n rs s h =
          again-le n _ (rows_of (query_function client) from_ddb_item fuel)
            (stop_or-Spent n (has_next (query_function client) rs s) (has_next-Bounded n rs s h))
            (rows_of-Bounded fuel)

      -- However far the iteration goes, a query with a limit gives no more rows than the limit,
      -- where the service answers no more items than it is asked for.
      pub length-rows_of :
          (fuel limit : ℕ) (s : client.State)
          → length
              (rows_of
                (query_function client)
                from_ddb_item
                fuel
                new_result_set
                (some limit, s)).0.0
            ≤ limit
      length-rows_of fuel limit s =
          rows_of-Bounded fuel limit new_result_set (some limit, s) (omega arith)
