-- ===== src/Repos/Store/Contexts/Failures.antt =====
-- What failing a session does, and what it does to a session that is gone.
use shim_service.Base.{
  ◌≡◌, refl, ap, ◌∙◌, String, true, false, Option, none, some, [], ◌∷◌, Option-cases, inl, inr,
  nat_eq, string_eq, pair_eq, beq_refl,
}
use shim_service.Base.Dict.{lookup, insert}
use shim_service.Records.{Value, Record}
use shim_service.Session
use shim_service.Session.{Session, SessionKey, SessionStatus, status_value}
use shim_service.Session.Contexts.{ContextType, SessionContext}
use shim_service.PendingEvents.{PendingEvent}
use shim_service.Repos.Sessions.{Reply, Failure}
use shim_service.Repos.Database.{
  ItemKey, Request, holds_on, effect, patched, or_new, Rows, all_hold, applied, Database, rows_of,
  IsLawful,
}
use shim_service.Repos.Store.{Surroundings, session_item, found, find_session}
use shim_service.Repos.Store.Contexts.{
  context_item, pending_item, failure_requests, pending_delete, set_failed,
}
use shim_service.Repos.Store.Contexts.Dues.{write_all_lem}
use shim_service.Repos.Store.Spec.Views.{committed_good}

module _ (db : Database) (env : Surroundings) (c : SessionContext) (message : String) where
  abbrev key : SessionKey
  key = record { tenant_id = c.tenant_id; session_id = c.session_id }

  delete_holds : (rows : Rows) (k : ItemKey) → holds_on (Request.delete k false) (rows k) ≡ true
  unfolding holds_on
  delete_holds rows k = elim (Option-cases (rows k)) [
    | inl e ↦ rw e refl
    | inr (row, e) ↦ rw e refl
  ]

  update_holds :
      (patch : Record) (rows : Rows) (k : ItemKey)
      → holds_on (Request.update k patch [] false) (rows k) ≡ true
  unfolding holds_on
  update_holds patch rows k = elim (Option-cases (rows k)) [
    | inl e ↦ rw e refl
    | inr (row, e) ↦ rw e refl
  ]

  -- `SET` of the status and the message.
  abbrev pub failure : Record
  failure =
      ("sessionStatus", Value.str (status_value SessionStatus.failed))
      ∷ ("failureMessage", Value.str message)
      ∷ []

  all_pending :
      (rows : Rows) (pending_event : Option PendingEvent)
      → all_hold rows (pending_delete db env pending_event) ≡ true
  all_pending rows none = refl
  all_pending rows (some e) = rw (delete_holds rows (pending_item e)) refl

  -- None of the requests has a condition.
  all_fail :
      (rows : Rows) (pending_event : Option PendingEvent)
      → all_hold rows (failure_requests db env c message pending_event) ≡ true
  all_fail rows pending_event =
      rw
        (
          update_holds failure rows (session_item c.tenant_id c.session_id),
          delete_holds rows (context_item c.tenant_id c.session_id ContextType.web),
          delete_holds rows (context_item c.tenant_id c.session_id ContextType.live_agent),
          delete_holds rows (context_item c.tenant_id c.session_id ContextType.push_notifier),
        )
        (all_pending rows pending_event)

  context_gone :
      (rows : Rows) (pending_event : Option PendingEvent) (kind : ContextType)
      → applied
          (failure_requests db env c message pending_event)
          rows
          (context_item c.tenant_id c.session_id kind)
        ≡ none
  unfolding effect
  context_gone rows pending_event ContextType.web =
      rw (beq_refl c.tenant_id, beq_refl c.session_id) refl
  context_gone rows pending_event ContextType.live_agent =
      rw (beq_refl c.tenant_id, beq_refl c.session_id) refl
  context_gone rows pending_event ContextType.push_notifier =
      rw (beq_refl c.tenant_id, beq_refl c.session_id) refl

  -- `set_failed` always answers true. The session's row, which may be a new one, has the status and
  -- the message, and no context of the session has a row.
  pub set_failed_lem :
      (pending_event : Option PendingEvent) (s : db.sequences.State)
      → IsLawful db
      → let (reply, s') = set_failed db env c message pending_event s in
        let session = session_item c.tenant_id c.session_id in
        (reply ≡ Reply.ok true)
        × (rows_of db s' session ≡ some (patched failure (or_new (rows_of db s session))))
        × ((kind : ContextType) → rows_of db s' (context_item c.tenant_id c.session_id kind) ≡ none)
  unfolding set_failed effect
  set_failed_lem pending_event s L =
      let rs = failure_requests db env c message pending_event in
      let old = rows_of db s in
      let (reply, rows) = write_all_lem db env L rs s in
      let holds = all_fail old pending_event in
      let session = session_item c.tenant_id c.session_id in
      (
        reply ∙ ap Reply.ok holds,
        ap (λ (r : Rows). r session) rows
            ∙ committed_good old rs session holds
            ∙ rw (beq_refl c.tenant_id, beq_refl c.session_id) refl,
        λ kind.
            ap (λ (r : Rows). r (context_item c.tenant_id c.session_id kind)) rows
            ∙ committed_good old rs (context_item c.tenant_id c.session_id kind) holds
            ∙ context_gone old pending_event kind,
      )

  no_session :
      (later : Surroundings) (old : Option Record)
      → old ≡ some (patched failure [])
      → found db later old ≡ Reply.raised (Failure.other "KeyError")
  unfolding found patched insert lookup Session.from_record
  no_session later old e = rw e refl

  -- `set_failed` for a session that has no row any more makes one, with a status and a message alone:
  -- from then on the session is not missing, but finding it raises.
  pub set_failed-find :
      (later : Surroundings) (pending_event : Option PendingEvent) (s : db.sequences.State)
      → IsLawful db
      → db.get_item s (session_item c.tenant_id c.session_id) ≡ none
      → let s' = (set_failed db env c message pending_event s).1 in
        ((find_session db later key s).0 ≡ Reply.ok none)
        × ((find_session db later key s').0 ≡ Reply.raised (Failure.other "KeyError"))
  unfolding find_session found
  set_failed-find later pending_event s L gone =
      let (reply, row, contexts) = set_failed_lem pending_event s L in
      (
        rw gone refl,
        no_session later
            (rows_of db (set_failed db env c message pending_event s).1
              (session_item c.tenant_id c.session_id))
            (row ∙ rw gone refl),
      )
