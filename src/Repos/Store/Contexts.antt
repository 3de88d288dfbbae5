-- ===== src/Repos/Store/Contexts.antt =====
-- python/shim-service/src/repos/aws/aws_session_contexts.py and aws_pending_events_repo.py: what
-- makes a session active, what makes it fail, and when its pending event is due.
pub mod Activations
pub mod Failures
pub mod Dues
use shim_service.Base.{
  ℕ, ◌+◌, ◌*◌, ◌≡◌, String, ◌<>◌, Bool, true, false, Option, none, some, List, [], ◌∷◌, ◌++◌, map,
  if◌then◌else◌, Eq, ◌==◌, contains, string_eq, nat_eq,
}
use shim_service.Base.Dict.{Dict, insert}
use shim_service.Utils.Dates.{get_system_time_in_seconds}
use shim_service.Records.{Value, Record, omni}
use shim_service.Session.{Session, SessionKey, SessionStatus, status_value, has_live_agent_polling}
use shim_service.Session.Contexts
use shim_service.Session.Contexts.{ContextType, SessionContext, context_value}
use shim_service.Events.{EventType}
use shim_service.PendingEvents
use shim_service.PendingEvents.{PendingEvent, PendingEventType, new_pending_event}
use shim_service.Repos.Sessions.{Reply, Failure}
use shim_service.Repos.Database.{ItemKey, Request, Database}
use shim_service.Repos.Store.{
  Datum, Surroundings, session_item, sfdc_item, expires, inner, raise_or, succeeded,
  execute_with_event, event_of,
}

-- The place of a context type in its enumeration.
abbrev pub context_number : ContextType → ℕ
context_number ContextType.web = 0
context_number ContextType.live_agent = 1
context_number ContextType.push_notifier = 2

abbrev pub context_item : ℕ → String → ContextType → ItemKey
context_item tenant_id session_id context_type =
    (("SessionContext", tenant_id), (session_id, context_number context_type))

abbrev pub pending_item : PendingEvent → ItemKey
pending_item e = (("PendingEvent", e.tenant_id), (e.session_id, e.active_at))

-- `create_put_item_request` with `prepare_put`.
abbrev pub context_put : Surroundings → ℕ → SessionContext → Request
context_put env ttl c =
    Request.put (context_item c.tenant_id c.session_id c.context_type)
      (insert "expireTime" (Value.int (expires env ttl)) (Contexts.to_record c))

-- `create_put_request` of the Salesforce session, its data already compressed.
abbrev pub sfdc_put : Surroundings → Session → List ℕ → Request
sfdc_put env session compressed = Request.put (sfdc_item session.tenant_id session.session_id) (
    ("tenantId", Value.int session.tenant_id)
    ∷ ("sessionId", Value.str session.session_id)
    ∷ ("expireTime", Value.int (expires env session.expiration_seconds))
    ∷ ("sessionData", Value.bytes compressed)
    ∷ [])

-- `create_patch_with_state_check_request` with the status.
abbrev pub activation : Surroundings → Session → Request
activation env session =
    Request.update (session_item session.tenant_id session.session_id)
      (("sessionStatus", Value.str (status_value SessionStatus.active))
        ∷ ("stateCounter", Value.int (session.state_counter + 1))
        ∷ ("updateTime", Value.int env.millis)
        ∷ [])
      (("stateCounter", Value.int session.state_counter) ∷ []) true

abbrev pub poll_event : Surroundings → Session → PendingEvent
poll_event env session =
    new_pending_event
      (record {
        event_type = PendingEventType.live_agent_poll;
        event_time = 0;
        tenant_id = session.tenant_id;
        session_id = session.session_id;
        user_id = some session.user_id;
        active_at = 0;
        update_time = 0;
      })
      env.millis

abbrev pub poll_requests : Surroundings → Session → List Request
poll_requests env session =
    if has_live_agent_polling session
    then Request.put (pending_item (poll_event env session))
        (PendingEvents.to_record (poll_event env session))
      ∷ []
    else []

-- `__construct_create_requests`
unfoldable pub create_requests :
    Surroundings → ℕ → Session → List ℕ → List SessionContext → List Request
create_requests env ttl session compressed contexts =
    map (context_put env ttl) contexts
    ++ (sfdc_put env session compressed ∷ activation env session ∷ poll_requests env session)

module _ (db : Database) (env : Surroundings) where
  unfoldable pub create_session_contexts :
      ℕ
      → Session
      → List ℕ
      → List SessionContext
      → db.sequences.State
      → Reply Failure Bool × db.sequences.State
  create_session_contexts ttl session compressed contexts s = succeeded db env (
      execute_with_event db env session.tenant_id
        (create_requests env ttl session compressed contexts) EventType.session_activated
        (event_of session
          ++ ("channelPlatformTypes", Datum.texts session.channel_platform_types) ∷ [])
        s)

  -- A row that is no record raises.
  found_context : Option Record → Reply Failure (Option SessionContext)
  found_context none = Reply.ok none
  found_context (some row) = elim (Contexts.from_record row env.millis) [
    | none ↦ Reply.raised (Failure.other "KeyError")
    | some context ↦ Reply.ok (some context)
  ]

  unfoldable pub find_session_context :
      SessionKey
      → ContextType
      → db.sequences.State
      → Reply Failure (Option SessionContext) × db.sequences.State
  unfolding found_context
  find_session_context key context_type s =
      (found_context (db.get_item s (context_item key.tenant_id key.session_id context_type)), s)

  -- `transact_write` of requests without an event, and `is None` of its answer.
  unfoldable pub write_all :
      List Request → db.sequences.State → Reply Failure Bool × db.sequences.State
  write_all requests s =
      let (answer, s') = inner db env requests s in
      succeeded db env (raise_or db env (some answer), s')

  -- `create_delete_item_request` of a pending event, if there is one.
  abbrev pub pending_delete : Option PendingEvent → List Request
  pending_delete none = []
  pending_delete (some e) = Request.delete (pending_item e) false ∷ []

  abbrev pub failure_requests : SessionContext → String → Option PendingEvent → List Request
  failure_requests c message pending_event =
      Request.update (session_item c.tenant_id c.session_id)
        (("sessionStatus", Value.str (status_value SessionStatus.failed))
          ∷ ("failureMessage", Value.str message)
          ∷ [])
        [] false
      ∷ Request.delete (context_item c.tenant_id c.session_id ContextType.web) false
      ∷ Request.delete (context_item c.tenant_id c.session_id ContextType.live_agent) false
      ∷ Request.delete (context_item c.tenant_id c.session_id ContextType.push_notifier) false
      ∷ pending_delete pending_event

  unfoldable pub set_failed :
      SessionContext
      → String
      → Option PendingEvent
      → db.sequences.State
      → Reply Failure Bool × db.sequences.State
  unfolding write_all
  set_failed c message pending_event s = write_all (failure_requests c message pending_event) s

  -- The patch of a context, which must be there: its data, and the time.
  abbrev pub data_patch : SessionContext → List ℕ → Request
  data_patch c new_bytes =
      Request.update (context_item c.tenant_id c.session_id c.context_type)
        (("sessionData", Value.bytes new_bytes) ∷ ("updateTime", Value.int env.millis) ∷ []) [] true

  -- Given the new data, serialized, if there are any.
  unfoldable pub update_session_context :
      ⦃bytes_eq : Eq (List ℕ)⦄
      → SessionContext
      → Option (List ℕ)
      → db.sequences.State
      → Reply Failure Bool × db.sequences.State
  unfolding write_all
  update_session_context c none s = write_all (data_patch c c.session_data ∷ []) s
  update_session_context c (some serialized) s =
      if serialized == c.session_data
      then (Reply.ok true, s)
      else write_all (data_patch c serialized ∷ []) s

  abbrev pub due_at : ℕ → PendingEvent → PendingEvent
  due_at seconds_in_future event = record event {
    active_at = env.millis + seconds_in_future * 1000;
    update_time = env.millis;
  }

  -- The event itself is changed where its row was moved.
  moved_if : PendingEvent → PendingEvent → Reply Failure Bool → Reply Failure (Bool × PendingEvent)
  moved_if event new_event (Reply.raised e) = Reply.raised e
  moved_if event new_event (Reply.ok true) = Reply.ok (true, new_event)
  moved_if event new_event (Reply.ok false) = Reply.ok (false, event)

  abbrev pub move_requests : PendingEvent → PendingEvent → List Request
  move_requests event new_event =
      Request.delete (pending_item event) true
      ∷ Request.put (pending_item new_event) (PendingEvents.to_record new_event)
      ∷ []

  unfoldable pub update_action_time :
      PendingEvent
      → ℕ
      → db.sequences.State
      → Reply Failure (Bool × PendingEvent) × db.sequences.State
  unfolding moved_if write_all
  update_action_time event seconds_in_future s =
      let new_event = due_at seconds_in_future event in
      let (reply, s') = write_all (move_requests event new_event) s in
      (moved_if event new_event reply, s')
