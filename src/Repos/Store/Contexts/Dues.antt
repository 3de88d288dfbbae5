-- ===== src/Repos/Store/Contexts/Dues.antt =====
-- Writes without an event, and the time at which a pending event is due.
use shim_service.Base.{
  ℕ, ◌+◌, ◌*◌, ◌≡◌, refl, ap, ◌∙◌, ◌≢◌, Bool, true, false, ◌&&◌, not, Option, none, some, List,
  Option-cases, inl, inr, if◌then◌else◌, ◌==◌, nat_eq, string_eq, pair_eq, beq_refl,
}
use shim_service.PendingEvents
use shim_service.PendingEvents.{PendingEvent}
use shim_service.Repos.Sessions.{Reply, Failure}
use shim_service.Repos.Table.{is_none}
use shim_service.Repos.Database.{
  ItemKey, Request, holds_on, effect, Rows, all_hold, committed, Database, rows_of, IsLawful,
}
use shim_service.Repos.Store.{Surroundings, inner, raise_or}
use shim_service.Repos.Store.Transactions.{inner-verdict, inner-rows}
use shim_service.Repos.Store.Writes.{item_ne}
use shim_service.Repos.Store.Deletes.{succeeded-verdict, succeeded_state}
use shim_service.Repos.Store.Contexts.{
  pending_item, write_all, due_at, move_requests, moved_if, update_action_time,
}

-- What the rows are after a pending event was moved from `old` to `new`.
abbrev moved_rows : PendingEvent → PendingEvent → Rows → Rows
moved_rows old new rows k =
    if k == pending_item old
    then none
    else if k == pending_item new
    then some (PendingEvents.to_record new)
    else rows k

if_same : {A : Type 0} (b : Bool) (x : A) → (if b then x else x) ≡ x
if_same true x = refl
if_same false x = refl

module _ (db : Database) (env : Surroundings) (L : IsLawful db) where
  -- A write without an event answers whether its conditions held, and is done as a whole.
  pub write_all_lem :
      (rs : List Request) (s : db.sequences.State)
      → ((write_all db env rs s).0 ≡ Reply.ok (all_hold (rows_of db s) rs))
        × (rows_of db (write_all db env rs s).1 ≡ committed (rows_of db s) rs)
  unfolding write_all
  write_all_lem rs s =
      let run : Reply Failure (Option ℕ) × db.sequences.State =
        (raise_or db env (some (inner db env rs s).0), (inner db env rs s).1) in
      (
        succeeded-verdict db env (rows_of db s) rs run (inner-verdict db env L rs s),
        rw (succeeded_state db env run) (inner-rows db env L rs s),
      )

  moves :
      (event : PendingEvent) (new_event : PendingEvent) (rows : Rows)
      → all_hold rows (move_requests db env event new_event)
        ≡ (not (is_none (rows (pending_item event))) && is_none (rows (pending_item new_event)))
  unfolding holds_on
  moves event new_event rows = elim (Option-cases (rows (pending_item event))) [
    | inl e ↦ rw e refl
    | inr (row, e) ↦ elim (Option-cases (rows (pending_item new_event))) [
      | inl f ↦ rw (e, f) refl
      | inr (taken, f) ↦ rw (e, f) refl
    ]
  ]

  moves_cell :
      (event new_event : PendingEvent) (rows : Rows) (k : ItemKey)
      → let rs = move_requests db env event new_event in
        committed rows rs k
        ≡ (if all_hold rows rs then moved_rows event new_event rows k else rows k)
  unfolding committed effect
  moves_cell event new_event rows k = refl

  decided :
      (event new_event : PendingEvent) (b : Bool)
      → moved_if db env event new_event (Reply.ok b)
        ≡ Reply.ok (if b then (true, new_event) else (false, event))
  unfolding moved_if
  decided event new_event true = refl
  decided event new_event false = refl

  -- Given a time so many seconds ahead of the clock that is not the event's, `update_action_time`
  -- sets that time for an event that has its row, where no row of the session has the new time: the
  -- row under the old time is gone, the event's is there under the new one, and the event that the
  -- caller holds has the new time and the clock's as its update time. Else it answers false, and
  -- neither rows nor event change. No other row changes.
  pub update_action_time_lem :
      (event : PendingEvent) (seconds : ℕ) (s : db.sequences.State)
      → env.millis + seconds * 1000 ≢ event.active_at
      → let (reply, s') = update_action_time db env event seconds s in
        let new_event : PendingEvent = record event {
          active_at = env.millis + seconds * 1000;
          update_time = env.millis;
        } in
        let rows = rows_of db s in
        let ok =
          not (is_none (rows (pending_item event))) && is_none (rows (pending_item new_event)) in
        (reply ≡ Reply.ok (if ok then (true, new_event) else (false, event)))
        × (rows_of db s' (pending_item event) ≡ (if ok then none else rows (pending_item event)))
        × (rows_of db s' (pending_item new_event) ≡ (
            if ok then some (PendingEvents.to_record new_event) else rows (pending_item new_event)))
        × ((k : ItemKey)
            → k ≢ pending_item event
            → k ≢ pending_item new_event
            → rows_of db s' k ≡ rows k)
  unfolding update_action_time moved_if
  update_action_time_lem event seconds s other =
      let new_event = due_at db env seconds event in
      let (reply, rows) = write_all_lem (move_requests db env event new_event) s in
      let holds = moves event new_event (rows_of db s) in
      let cell : (k : ItemKey)
          → rows_of db (update_action_time db env event seconds s).1 k ≡ (
              if not (is_none (rows_of db s (pending_item event)))
                && is_none (rows_of db s (pending_item new_event))
              then moved_rows event new_event (rows_of db s) k
              else rows_of db s k) =
        λ k.
          ap (λ (r : Rows). r k) rows
          ∙ moves_cell event new_event (rows_of db s) k
          ∙ ap
              (λ (b : Bool).
                if b then moved_rows event new_event (rows_of db s) k else rows_of db s k)
              holds in
      (
        ap (moved_if db env event new_event) (reply ∙ ap Reply.ok holds)
            ∙ decided event new_event (
                not (is_none (rows_of db s (pending_item event)))
                && is_none (rows_of db s (pending_item new_event))),
        rw (cell (pending_item event), beq_refl ⦃e = pair_eq⦄ (pending_item event)) refl,
        rw
            (
              cell (pending_item new_event),
              item_ne (pending_item new_event) (pending_item event)
                  (λ same. other (ap (λ (k : ItemKey). k.1.1) same)),
              beq_refl ⦃e = pair_eq⦄ (pending_item new_event),
            )
            refl,
        λ k not_old not_new.
            rw
              (
                cell k,
                item_ne k (pending_item event) not_old,
                item_ne k (pending_item new_event) not_new,
              )
              (if_same _ _),
      )
