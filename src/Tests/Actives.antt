-- ===== src/Tests/Actives.antt =====
-- A pending session is made active, its poll is put off, and it fails.
use shim_service.Base.{
  ◌+◌, ◌*◌, ◌≢◌, ℕ, ◌≡◌, refl, true, false, not, ◌&&◌, none, some, [], ◌∷◌, ◌==◌, arith,
  if◌then◌else◌, nat_eq, string_eq, pair_eq, option_eq,
}
use shim_service.Base.Dict.{lookup}
use shim_service.Records.{Value, Record}
use shim_service.Session.{SessionKey}
use shim_service.Session.Contexts.{ContextType, SessionContext}
use shim_service.PendingEvents.{new_pending_event, PendingEvent, PendingEventType}
use shim_service.Repos.Sessions.{Reply, Failure}
use shim_service.Repos.Table.{is_none}
use shim_service.Repos.Sequence.{item}
use shim_service.Repos.Database.{ItemKey, holds_on, rows_of}
use shim_service.Repos.Database.Memory.{Cells, memory_database, memory_database-IsLawful}
use shim_service.Repos.Store.{session_item, event_item, find_session}
use shim_service.Repos.Store.Writes.{Ready}
use shim_service.Repos.Store.Contexts.{
  create_requests, create_session_contexts, set_failed, update_action_time, pending_item,
}
use shim_service.Repos.Store.Contexts.Activations.{
  create_session_contexts_lem, create_session_contexts_once,
}
use shim_service.Repos.Store.Contexts.Failures.{set_failed-find}
use shim_service.Repos.Store.Contexts.Dues.{update_action_time_lem}
use shim_service.Tests.Stores.{here, first, quiet}

abbrev web : SessionContext
web = record {
  tenant_id = 1;
  session_id = "a";
  user_id = "u";
  context_type = ContextType.web;
  session_data = 7 ∷ [];
  update_time = 6;
}

abbrev poll : PendingEvent
poll = record {
  event_type = PendingEventType.live_agent_poll;
  event_time = 4000;
  tenant_id = 1;
  session_id = "a";
  user_id = some "u";
  active_at = 4000;
  update_time = 4000;
}

-- The session's row as far as it is read here, and its pending event.
abbrev waiting : Cells
waiting = (
  (λ k. some (item k 5 0)),
  λ k.
      if k == session_item 1 "a"
      then some (("stateCounter", Value.int 1) ∷ [])
      else if k == pending_item poll
      then some []
      else none,
)

waiting-Ready : Ready memory_database 1 5 waiting
waiting-Ready = record { shows = refl; fresh = λ n later. refl }

activated :
    (create_session_contexts memory_database here 90 first (1 ∷ []) (web ∷ []) waiting).0
    ≡ Reply.ok true
unfolding holds_on create_requests lookup new_pending_event
activated =
    (create_session_contexts_lem here 90 memory_database first (1 ∷ []) (web ∷ []) 5 waiting
      memory_database-IsLawful quiet waiting-Ready).0

create_session_contexts_once_example :
    let s' =
      (create_session_contexts memory_database here 90 first (1 ∷ []) (web ∷ []) waiting).1 in
    let (reply, s'') = create_session_contexts memory_database here 90 first (2 ∷ []) [] s' in
    ((row : Record) × (rows_of memory_database s' (session_item first.tenant_id first.session_id)
        ≡ some row)
      × (lookup "sessionStatus" row ≡ some (Value.str "A")))
    × (reply ≡ Reply.ok false)
    × ((k : ItemKey)
        → ((n : ℕ) → (k == event_item first.tenant_id n) ≡ false)
        → rows_of memory_database s'' k ≡ rows_of memory_database s' k)
create_session_contexts_once_example =
    create_session_contexts_once memory_database here here 90 first (1 ∷ []) (2 ∷ []) (web ∷ []) []
      5 waiting memory_database-IsLawful quiet quiet waiting-Ready activated

abbrev nothing : Cells
nothing = ((λ k. some (item k 5 0)), (λ k. none))

abbrev web_key : SessionKey
web_key = record { tenant_id = 1; session_id = "a" }

set_failed-find_example :
    let s' = (set_failed memory_database here web "lost" (some poll) nothing).1 in
    ((find_session memory_database here web_key nothing).0 ≡ Reply.ok none)
    × ((find_session memory_database here web_key s').0 ≡ Reply.raised (Failure.other "KeyError"))
set_failed-find_example =
    set_failed-find memory_database here web "lost" here (some poll) nothing
      memory_database-IsLawful refl

update_action_time_lem_example :
    let (reply, s') = update_action_time memory_database here poll 30 waiting in
    let new_event : PendingEvent = record poll {
      active_at = here.millis + 30 * 1000;
      update_time = here.millis;
    } in
    let rows = rows_of memory_database waiting in
    let ok = not (is_none (rows (pending_item poll))) && is_none (rows (pending_item new_event)) in
    (reply ≡ Reply.ok (if ok then (true, new_event) else (false, poll)))
    × (rows_of memory_database s' (pending_item poll)
        ≡ (if ok then none else rows (pending_item poll)))
    × (rows_of memory_database s' (pending_item new_event) ≡ (
        if ok
        then some (shim_service.PendingEvents.to_record new_event)
        else rows (pending_item new_event)))
    × ((k : ItemKey)
        → k ≢ pending_item poll
        → k ≢ pending_item new_event
        → rows_of memory_database s' k ≡ rows k)
update_action_time_lem_example =
    update_action_time_lem memory_database here memory_database-IsLawful poll 30 waiting
      (λ e. omega (arith, e))
