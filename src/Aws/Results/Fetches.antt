-- ===== src/Aws/Results/Fetches.antt =====
-- How a query's items come from the service, and what a fetch of their next page gives.
use shim_service.Base.{
  ℕ, zero, suc, ◌+◌, ◌≡◌, refl, ap, ◌∙◌, ◌≢◌, inl, inr, ◌⊎◌, Bool, true, false, Option, none, some,
  List, [], ◌∷◌, ◌++◌, arith, ltb, eqb, length, get_elem?, drop, Option-cases, subst, append-nil,
}
use shim_service.Aws.Results.{Page, QueryFunction, ResultSet, received, more_items, has_next}

pub drop-get_elem? :
    {A : Type 0} (c : ℕ) (xs ys : List A) (x : A)
    → drop c xs ≡ x ∷ ys
    → (get_elem? xs c ≡ some x) × (drop (suc c) xs ≡ ys)
drop-get_elem? zero [] ys x h = cc
drop-get_elem? zero (z ∷ zs) ys x h = ground arith
drop-get_elem? (suc c) [] ys x h = cc
drop-get_elem? (suc c) (z ∷ zs) ys x h = drop-get_elem? c zs ys x h

module _ {S K I : Type 0} (q : QueryFunction S K I) where
  -- From a key on the service has so many more pages after the next one, and these items in all.
  -- Only the last page may be empty.
  abbrev pub Serves : ℕ → Option K → S → List I → Type 0
  Serves zero key s xs =
      (page : Page K I) × (s' : S) × (q key s ≡ (some page, s'))
      × (page.items ≡ xs)
      × (page.next_key ≡ none)
  Serves (suc n) key s xs =
      (page : Page K I) × (s' : S) × (k : K) × (ys : List I) × (q key s ≡ (some page, s'))
      × (page.next_key ≡ some k)
      × (page.items ≢ [])
      × (xs ≡ page.items ++ ys)
      × Serves n (some k) s' ys

  -- The same up to a page that is empty although it has a next key, as one whose rows a filter drops
  -- all; the items are those of the pages before it, of which none is empty.
  abbrev pub Halts : ℕ → Option K → S → List I → Type 0
  Halts zero key s xs =
      (page : Page K I) × (s' : S) × (k : K) × (q key s ≡ (some page, s'))
      × (page.next_key ≡ some k)
      × (page.items ≡ [])
      × (page.count ≡ 0)
      × (xs ≡ [])
  Halts (suc n) key s xs =
      (page : Page K I) × (s' : S) × (k : K) × (ys : List I) × (q key s ≡ (some page, s'))
      × (page.next_key ≡ some k)
      × (page.items ≢ [])
      × (xs ≡ page.items ++ ys)
      × Halts n (some k) s' ys

  -- The items up to whichever end.
  abbrev pub Comes : ℕ → Option K → S → List I → Type 0
  Comes n key s xs = Serves n key s xs ⊎ Halts n key s xs

  abbrev pub After : Option K → S → List I → Type 0
  After none s ys = ys ≡ []
  After (some k) s ys = (n : ℕ) × Comes n (some k) s ys

  -- A result set within a page, which has `rem` left, `ys` being the items of the pages to come.
  pub record Within (rs : ResultSet K I) (s : S) (rem ys : List I) : Type 0 where
    pub its : List I
    pub unfinished : rs.done ≡ false
    pub items_are : rs.items ≡ some its
    pub left : drop rs.counter its ≡ rem
    pub size : rs.counter + length rem ≡ length its
    pub after : After rs.next_key s ys

  -- A fetch from a key answers false at the end of the items, and else is within a page.
  abbrev pub Fetched : List I → (Bool × ResultSet K I) × S → Type 0
  Fetched [] ((more, rs), s) = more ≡ false
  Fetched (x ∷ xs) ((more, rs), s) =
      (more ≡ true) × ((rem : List I) × (ys : List I) × (xs ≡ rem ++ ys) × Within rs s (x ∷ rem) ys)

  -- A result set whose page has just come.
  abbrev at_page : ResultSet K I → Page K I → ResultSet K I
  at_page rs page = record {
    next_key = page.next_key;
    items = some page.items;
    counter = 0;
    done = rs.done;
    count_returned = some page.count;
  }

  received_items :
      (rs : ResultSet K I) (page : Page K I) (s : S) (x : I) (items : List I)
      → page.items ≡ x ∷ items
      → received q rs (some page, s) ≡ ((true, at_page rs page), s)
  unfolding received
  received_items rs page s x items e =
      let some_left : ltb 0 (suc (length items)) ≡ true = ground arith in rw (e, some_left) refl

  received_end :
      (rs : ResultSet K I) (page : Page K I) (s : S)
      → page.items ≡ []
      → page.next_key ≡ none
      → (received q rs (some page, s)).0.0 ≡ false
  unfolding received
  received_end rs page s e k = rw (e, k) refl

  received_empty :
      (rs : ResultSet K I) (page : Page K I) (s : S) (k : K)
      → page.items ≡ []
      → page.count ≡ 0
      → page.next_key ≡ some k
      → (received q rs (some page, s)).0.0 ≡ false
  unfolding received
  received_empty rs page s k e c h = rw (e, c, h) refl

  page_Fetched :
      (rs : ResultSet K I) (page : Page K I) (s : S) (items ys : List I) (key : Option K)
      → rs.done ≡ false
      → page.items ≡ items
      → page.next_key ≡ key
      → (items ≡ [] → (key ≡ none) × (ys ≡ []))
      → After key s ys
      → Fetched (items ++ ys) (received q rs (some page, s))
  page_Fetched rs page s [] ys key open_ e k last_ after =
      let (e', y) = last_ refl in rw y (received_end rs page s e (k ∙ e'))
  page_Fetched rs page s (x ∷ items) ys key open_ e k last_ after =
      rw (received_items rs page s x items e) (
        refl,
        (
          items,
          ys,
          refl,
          record {
            its = page.items;
            unfinished = open_;
            items_are = refl;
            left = e;
            size = omega (arith, ap length e);
            after = rw k after;
          },
        ),
      )

  -- A fetch, where the service has these items.
  pub fetch_Fetched :
      (n : ℕ) (rs : ResultSet K I) (key : Option K) (s : S) (xs : List I)
      → rs.done ≡ false
      → Comes n key s xs
      → Fetched xs (received q rs (q key s))
  fetch_Fetched zero rs key s xs open_ (inl (page, s', e, items, k)) = rw e (
      subst (λ ys. Fetched ys (received q rs (some page, s'))) (append-nil xs)
        (page_Fetched rs page s' xs [] none open_ items k (λ h. (refl, refl)) refl))
  fetch_Fetched zero rs key s xs open_ (inr (page, s', k, e, next_, items, count, none_)) =
      rw (e, none_) (received_empty rs page s' k items count next_)
  fetch_Fetched (suc n) rs key s xs open_ (inl (page, s', k, ys, e, next_, full, all_, later)) =
      rw (e, all_)
        (page_Fetched rs page s' page.items ys (some k) open_ refl next_ (λ h. absurd (full h))
          (n, inl later))
  fetch_Fetched (suc n) rs key s xs open_ (inr (page, s', k, ys, e, next_, full, all_, later)) =
      rw (e, all_)
        (page_Fetched rs page s' page.items ys (some k) open_ refl next_ (λ h. absurd (full h))
          (n, inr later))

  -- Within a page that has an item left, `has_next` changes nothing.
  pub has_next-Within :
      (rs : ResultSet K I) (s : S) (x : I) (rem ys : List I)
      → Within rs s (x ∷ rem) ys
      → has_next q rs s ≡ ((true, rs), s)
  unfolding has_next
  has_next-Within rs s x rem ys w =
      let inside : eqb rs.counter (length w.its) ≡ false = ground (arith, w.size) in
      rw (w.unfinished, w.items_are, more_items, inside) refl

  -- Where it has none, `has_next` is at the end, or fetches.
  has_next-left :
      (rs : ResultSet K I) (s : S) (ys : List I) → Within rs s [] ys → Fetched ys (has_next q rs s)
  unfolding has_next
  has_next-left rs s ys w =
      let outside : eqb rs.counter (length w.its) ≡ true = ground (arith, w.size) in
      elim (Option-cases rs.next_key) [
        | inl e ↦
            rw (w.unfinished, w.items_are, more_items, outside, e)
              (rw (subst (λ k. After k s ys) e w.after) refl)
        | inr (k, e) ↦
            rw (w.unfinished, w.items_are, more_items, outside, e)
              (let (n, later) = subst (λ k. After k s ys) e w.after in
                fetch_Fetched n _ (some k) s ys refl later)
      ]

  pub has_next-Within_any :
      (rs : ResultSet K I) (s : S) (rem ys : List I)
      → Within rs s rem ys
      → Fetched (rem ++ ys) (has_next q rs s)
  has_next-Within_any rs s [] ys w = has_next-left rs s ys w
  has_next-Within_any rs s (x ∷ rem) ys w =
      rw (has_next-Within rs s x rem ys w) (refl, (rem, ys, refl, w))
