-- ===== src/Aws/Results/Pages.antt =====
-- What the iteration over a query's result gives, page after page.
use shim_service.Base.{
  ℕ, zero, suc, ◌+◌, ◌<◌, ◌≡◌, refl, inl, inr, Bool, Option, none, some, List, [], ◌∷◌, ◌++◌, map,
  arith, length,
}
use native.Mathlib.Numerals.{add-one}
use shim_service.Aws.Results.{
  QueryFunction, ResultSet, new_result_set, Next, stop, row, more_items, has_next, item_at,
  take_next, next, stop_or, next_row, again, rows_of,
}
use shim_service.Aws.Results.Fetches.{
  drop-get_elem?, Serves, Halts, Comes, Within, Fetched, fetch_Fetched, has_next-Within,
  has_next-Within_any,
}

module _ {S K I : Type 0} (q : QueryFunction S K I) {R : Type 0} (from_ddb_item : I → R) where
  next_row-Within :
      (rs : ResultSet K I) (s : S) (x : I) (rem ys : List I)
      → Within q rs s (x ∷ rem) ys
      → let rs' : ResultSet K I = record rs { counter = rs.counter + 1 } in
        (next q from_ddb_item rs s ≡ ((row (from_ddb_item x), rs'), s)) × Within q rs' s rem ys
  unfolding next take_next
  next_row-Within rs s x rem ys w =
      let (at_, rest) = drop-get_elem? rs.counter w.its rem x w.left in
      (
        rw (has_next-Within q rs s x rem ys w, w.items_are, item_at, at_) refl,
        record {
          its = w.its;
          unfinished = w.unfinished;
          items_are = w.items_are;
          left = rw add-one rest;
          size = omega (arith, w.size);
          after = w.after;
        },
      )

  -- The rows and the end of an iteration.
  abbrev Gives : List I → (List R × Option (Next R)) × S → Type 0
  Gives xs (result, s) = result ≡ (map from_ddb_item xs, some stop)

  again-row :
      (i : I) (xs : List I) (rs : ResultSet K I) (s : S)
      (rest : ResultSet K I → S → (List R × Option (Next R)) × S)
      → Gives xs (rest rs s)
      → Gives (i ∷ xs) (again q from_ddb_item ((row (from_ddb_item i), rs), s) rest)
  unfolding again
  again-row i xs rs s rest h = rw h refl

  -- What follows a `has_next`, if the iteration from within a page is right.
  has_next-Gives :
      (xs : List I) (p : (Bool × ResultSet K I) × S)
      (rest : ResultSet K I → S → (List R × Option (Next R)) × S)
      → Fetched q xs p
      → ((rs : ResultSet K I) (s : S) (rem ys : List I)
          → Within q rs s rem ys
          → length (rem ++ ys) < length xs
          → Gives (rem ++ ys) (rest rs s))
      → Gives xs (again q from_ddb_item (stop_or q from_ddb_item p) rest)
  unfolding stop_or again
  has_next-Gives [] ((more, rs), s) rest h ih = rw h refl
  has_next-Gives (x ∷ xs) ((more, rs), s) rest (h, (rem, ys, e, w)) ih =
      let (took, w') = next_row-Within rs s x rem ys w in
      rw (h, stop_or, took, e)
        (again-row x (rem ++ ys) _ s rest (ih _ s rem ys w' (rw e (omega arith))))

  rows_of-Within :
      (fuel : ℕ) (rs : ResultSet K I) (s : S) (rem ys : List I)
      → Within q rs s rem ys
      → length (rem ++ ys) < fuel
      → Gives (rem ++ ys) (rows_of q from_ddb_item fuel rs s)
  unfolding rows_of next_row
  rows_of-Within zero rs s rem ys w h = absurd (omega arith)
  rows_of-Within (suc fuel) rs s rem ys w h =
      has_next-Gives (rem ++ ys) (has_next q rs s) (rows_of q from_ddb_item fuel)
        (has_next-Within_any q rs s rem ys w)
        (λ rs' s' rem' ys' w' less. rows_of-Within fuel rs' s' rem' ys' w' (omega (arith, less, h)))

  rows_of-Comes :
      (fuel n : ℕ) (s : S) (xs : List I)
      → Comes q n none s xs
      → length xs < fuel
      → Gives xs (rows_of q from_ddb_item fuel new_result_set s)
  unfolding rows_of next_row has_next more_items
  rows_of-Comes zero n s xs comes h = absurd (omega arith)
  rows_of-Comes (suc fuel) n s xs comes h =
      has_next-Gives xs (has_next q new_result_set s) (rows_of q from_ddb_item fuel)
        (fetch_Fetched q n new_result_set none s xs refl comes)
        (λ rs' s' rem' ys' w' less. rows_of-Within fuel rs' s' rem' ys' w' (omega (arith, less, h)))

  -- Where the service has these items on its pages, of which only the last may be empty, the
  -- iteration gives a row for each of them, in their order, and then ends.
  pub rows_of_lem :
      (fuel n : ℕ) (s : S) (xs : List I)
      → Serves q n none s xs
      → length xs < fuel
      → (rows_of q from_ddb_item fuel new_result_set s).0 ≡ (map from_ddb_item xs, some stop)
  rows_of_lem fuel n s xs serves h = rows_of-Comes fuel n s xs (inl serves) h

  -- The first page that is empty, with a count of 0, ends the iteration although it has a next
  -- key, however many pages came before it: the rows are those of the pages before it, and nothing
  -- of the pages that follow is given.
  pub rows_of_stops :
      (fuel n : ℕ) (s : S) (xs : List I)
      → Halts q n none s xs
      → length xs < fuel
      → (rows_of q from_ddb_item fuel new_result_set s).0 ≡ (map from_ddb_item xs, some stop)
  rows_of_stops fuel n s xs halts h = rows_of-Comes fuel n s xs (inr halts) h
