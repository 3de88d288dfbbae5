-- ===== src/Repos/Batch.antt =====
-- python/shim-service/src/repos/aws/abstract_repo.py: the rows of a batch read, in the order of
-- their requests, and the request that a transaction failed for.
use shim_service.Base.{
  ℕ, zero, suc, ◌+◌, ◌≤◌, ◌≡◌, refl, ap, String, Bool, true, false, Option, none, some, List, [],
  ◌∷◌, if◌then◌else◌, Eq, ◌==◌, string_eq, option_eq, length, replicate, length-replicate, arith,
  Option-cases, inl, inr,
}
use shim_service.Base.Dict.{Dict, lookup}

module _ {V : Type 0} ⦃e : Eq V⦄ where
  -- `key_matches`: each attribute of the request's key is the row's.
  unfoldable pub key_matches : Dict String V → Dict String V → Bool
  key_matches row [] = true
  key_matches row ((k, v) ∷ keys) =
      let rest = key_matches row keys in if lookup k row == some v then rest else false

-- A request: its table, its key, and whether whole records are asked for; with the index it has.
pub record Tracked (V : Type 0) : Type 0 where
  pub table_name : String
  pub keys : Dict String V
  pub index : ℕ

abbrev pub set_entry {ℓ} : {A : Type ℓ} → ℕ → A → List (Option A) → List (Option A)
set_entry n a [] = []
set_entry zero a (x ∷ xs) = some a ∷ xs
set_entry (suc n) a (x ∷ xs) = x ∷ set_entry n a xs

module _ {V : Type 0} ⦃e : Eq V⦄ where
  -- `find_match`: the first request that a row matches, and the others.
  unfoldable pub find_match :
      String → Dict String V → List (Tracked V) → Option (Tracked V × List (Tracked V))
  find_match table row [] = none
  find_match table row (q ∷ qs) =
      let rest = find_match table row qs in
      let matched = if q.table_name == table then key_matches row q.keys else false in
      if matched
      then some (q, qs)
      else elim rest [ none ↦ none | some found ↦ some (found.0, q ∷ found.1) ]

  -- The rows with their tables, one after the other: the entries and how many rows matched.
  unfoldable pub place_rows :
      List (String × Dict String V)
      → List (Tracked V)
      → List (Option (Dict String V)) × ℕ
      → List (Option (Dict String V)) × ℕ
  place_rows [] requests result = result
  place_rows ((table, row) ∷ rows) requests (entries, match_count) =
      elim (find_match table row requests) [
        | none ↦ place_rows rows requests (entries, match_count)
        | some found ↦
            place_rows rows found.1 (set_entry found.0.index row entries, match_count + 1)
      ]

  abbrev pub track : ℕ → List (String × Dict String V) → List (Tracked V)
  track counter [] = []
  track counter ((table, keys) ∷ qs) =
      record { table_name = table; keys = keys; index = counter } ∷ track (counter + 1) qs

  -- `batch_get`, given the rows that the database answers.
  unfoldable pub batch_get :
      List (String × Dict String V)
      → List (String × Dict String V)
      → List (Option (Dict String V)) × ℕ
  unfolding place_rows
  batch_get requests rows = place_rows rows (track 0 requests) (replicate (length requests) none, 0)

  length-set_entry :
      (n : ℕ) (a : Dict String V) (xs : List (Option (Dict String V)))
      → length (set_entry n a xs) ≡ length xs
  length-set_entry n a [] = refl
  length-set_entry zero a (x ∷ xs) = refl
  length-set_entry (suc n) a (x ∷ xs) = ap suc (length-set_entry n a xs)

  abbrev pub Placed : ℕ → ℕ → List (Option (Dict String V)) × ℕ → Type 0
  Placed n most (entries, match_count) = (length entries ≡ n) × (match_count ≤ most)

  place_rows_lem :
      (rows : List (String × Dict String V)) (requests : List (Tracked V))
      (entries : List (Option (Dict String V))) (count : ℕ)
      → Placed (length entries) (count + length rows) (place_rows rows requests (entries, count))
  unfolding place_rows
  place_rows_lem [] requests entries count = (refl, omega arith)
  place_rows_lem ((table, row) ∷ rows) requests entries count =
      elim (Option-cases (find_match table row requests)) [
        | inl e ↦
            let (sized, few) = place_rows_lem rows requests entries count in
            rw (e, place_rows) (sized, omega (arith, few))
        | inr (found, e) ↦
            let (sized, few) =
              place_rows_lem rows found.1 (set_entry found.0.index row entries) (count + 1) in
            rw (e, place_rows)
              (omega (arith, sized, length-set_entry found.0.index row entries), omega (arith, few))
      ]

  -- A batch read has an entry for each request, and counts no more matches than there are rows.
  batch_get_lem :
      (requests rows : List (String × Dict String V))
      → (length (batch_get requests rows).0 ≡ length requests)
        × ((batch_get requests rows).1 ≤ length rows)
  unfolding batch_get
  batch_get_lem requests rows =
      let (sized, few) =
        place_rows_lem rows (track 0 requests) (replicate (length requests) none) 0 in
      (
        omega (arith, sized, length-replicate {A = Option (Dict String V)} (length requests) none),
        omega (arith, few),
      )

-- `transact_write`, given the reasons of a cancelled transaction, none where one has no code: the
-- request of the first reason that has one, or the exception where none has.
pub data Transaction (Q : Type 0) : Type 0 where
  written cancelled : Transaction Q
  failed_for : Q → Transaction Q

unfoldable pub blame : {Q : Type 0} → List (Option String) → List Q → Transaction Q
blame [] requests = Transaction.cancelled
blame (reason ∷ reasons) [] = Transaction.cancelled
blame (none ∷ reasons) (q ∷ requests) = blame reasons requests
blame (some code ∷ reasons) (q ∷ requests) = Transaction.failed_for q

unfoldable pub transact_write :
    {Q : Type 0} → Option (List (Option String)) → List Q → Transaction Q
unfolding blame
transact_write none requests = Transaction.written
transact_write (some reasons) requests = blame reasons requests
