-- ===== src/Repos/Store/Transactions.antt =====
-- What a write of the store does: its transaction, under the tenant's sequence of events.
use shim_service.Base.{
  ℕ, ◌+◌, ◌≡◌, refl, ap, ◌∙◌, String, false, Option, none, some, List, [], ◌∷◌, arith, Bool-cases,
  inl, inr, if◌then◌else◌, nat_eq, string_eq, pair_eq,
}
use mathlib.Core.Path.{fun_ext}
use shim_service.Base.Dict.{Dict}
use shim_service.Events.{EventType}
use shim_service.Repos.Sessions.{Reply, Failure}
use shim_service.Repos.Batch.{blame, transact_write}
use shim_service.Repos.Sequence.{Key}
use shim_service.Repos.Sequence.Numbers.{Shows, execute_lem}
use shim_service.Repos.Sequence.Views.{view-execute}
use shim_service.Repos.Database.{
  Request, item_key, holds_on, Rows, all_hold, reasons, committed, Database, rows_of, IsLawful,
}
use shim_service.Repos.Store.{
  Datum, Surroundings, numbered, event_requests, answer_of, inner, raise_or, execute_with_event,
}

-- The place of the first request whose condition fails, counted from `n`.
abbrev pub first_failing : Rows → List Request → ℕ → ℕ
first_failing rows [] n = n
first_failing rows (r ∷ rs) n =
    let rest = first_failing rows rs (n + 1) in if holds_on r (rows (item_key r)) then rest else n

-- What `execute_with_event` answers, by the conditions.
abbrev pub verdict : Rows → List Request → Reply Failure (Option ℕ)
verdict rows rs =
    if all_hold rows rs then Reply.ok none else Reply.ok (some (first_failing rows rs 0))

module _ (db : Database) (env : Surroundings) where
  blame_first :
      (rows : Rows) (rs : List Request) (n : ℕ)
      → all_hold rows rs ≡ false
      → raise_or db env (some (blame (reasons rows rs) (numbered n rs)))
        ≡ Reply.ok (some (first_failing rows rs n))
  unfolding blame raise_or
  blame_first rows [] n h = cc
  blame_first rows (r ∷ rs) n h = elim (Bool-cases (holds_on r (rows (item_key r)))) [
    | inl good ↦ rw good (blame_first rows rs (n + 1) (ground (arith, good, h)))
    | inr bad ↦ rw bad refl
  ]

  module _ (L : IsLawful db) where
    pub inner-verdict :
        (rs : List Request) (s : db.sequences.State)
        → raise_or db env (some (inner db env rs s).0) ≡ verdict (rows_of db s) rs
    unfolding inner answer_of transact_write raise_or
    inner-verdict rs s = elim (Bool-cases (all_hold (rows_of db s) rs)) [
      | inl good ↦ rw (L.transact_answer rs s, good) refl
      | inr bad ↦ rw (L.transact_answer rs s, bad) (blame_first (rows_of db s) rs 0 bad)
    ]

    pub inner-rows :
        (rs : List Request) (s : db.sequences.State)
        → rows_of db (inner db env rs s).1 ≡ committed (rows_of db s) rs
    unfolding inner answer_of
    inner-rows rs s = fun_ext (λ k. L.rows-transact rs s k)

    inner-spares :
        (rs : List Request) (s : db.sequences.State) (k : Key)
        → db.sequences.get_item (inner db env rs s).1 k ≡ db.sequences.get_item s k
    unfolding inner answer_of
    inner-spares rs s k = L.transact_spares rs s k

    -- An undisturbed write, on an unlocked sequence that shows the number `v`: one transaction with
    -- the event numbered `v`, done or cancelled as a whole; the answer is the place of the first
    -- request whose condition fails, if one does. The sequence is unlocked after it, at `v + 1`.
    pub execute_with_event_lem :
        (tenant_id : ℕ) (requests : List Request) (kind : EventType)
        (event_data : Dict String Datum) (v : ℕ) (s : db.sequences.State)
        → Shows db.sequences (tenant_id, "EventSeq") s v 0
        → let rs = event_requests db env tenant_id requests kind event_data v in
          let (reply, s') = execute_with_event db env tenant_id requests kind event_data s in
          (reply ≡ verdict (rows_of db s) rs)
          × (rows_of db s' ≡ committed (rows_of db s) rs)
          × Shows db.sequences (tenant_id, "EventSeq") s' (v + 1) 0
    unfolding execute_with_event
    execute_with_event_lem tenant_id requests kind event_data v s shows =
        let k : Key = (tenant_id, "EventSeq") in
        let caller =
          λ (n : ℕ). inner db env (event_requests db env tenant_id requests kind event_data n) in
        let rs = event_requests db env tenant_id requests kind event_data v in
        let spares = λ (n : ℕ) (u : db.sequences.State).
          inner-spares (event_requests db env tenant_id requests kind event_data n) u k in
        let (w, same, answer, after) =
          view-execute db.sequences (rows_of db) (λ u n q. fun_ext (λ j. L.put_new_spares u n q j))
            (λ u n p f. fun_ext (λ j. L.update_if_spares u n p f j)) k 30 v env.clock caller s
            L.sequences_lawful spares shows in
        (
          rw (answer, inner-verdict rs w, same) refl,
          after ∙ inner-rows rs w ∙ ap (λ (r : Rows). committed r rs) same,
          (execute_lem db.sequences L.sequences_lawful k 30 v env.clock caller s spares shows).1,
        )
