-- ===== src/Tests/Stores.antt =====
-- A store in memory: a user logs in, and logs in again.
use shim_service.Base.{
  ◌&&◌, ◌||◌, ℕ, ◌+◌, ◌≡◌, refl, false, none, some, List, [], ◌∷◌, ◌==◌, arith, if◌then◌else◌,
  nat_eq, ap, string_eq, pair_eq, list_eq, not,
}
use shim_service.Records.{Value, members_of, channels}
use shim_service.Session
use shim_service.Session.{Session, SessionStatus, key_of}
use shim_service.Repos.Sessions.{Reply}
use shim_service.Repos.Table.{is_none}
use shim_service.Repos.Sequence.{item}
use shim_service.Repos.Database.{ItemKey, rows_of}
use shim_service.Repos.Database.Memory.{Cells, memory_database, memory_database-IsLawful}
use shim_service.Repos.Store.{
  Surroundings, session_item, user_item, event_item, expires, create_session, find_session,
  delete_session,
}
use shim_service.Repos.Store.Writes.{Ready, IsQuiet}
use shim_service.Repos.Store.Creates.{timed}
use shim_service.Repos.Store.Logins.{find-create}
use shim_service.Repos.Store.Deletes.{delete_session_lem, delete_session_strands}
use shim_service.Repos.Store.Spec.{Call}
use shim_service.Repos.Store.Owners.{OneEach}
use shim_service.Repos.Store.Owners.Runs.{Move, creates, touches, perform_all, perform_all-OneEach}

abbrev pub here : Surroundings
here = record {
  millis = 5000;
  clock = λ i. (5000, 5000);
  event_id = "e";
  dumps = λ info. "{}";
  examine_event = λ e. [];
}

abbrev pub first : Session
first = record {
  org_id = "o";
  tenant_id = 1;
  session_id = "a";
  time_created = 5;
  user_id = "u";
  instance_url = "i";
  access_token = some "t";
  fcm_device_token = some "d";
  expiration_seconds = 60;
  channel_platform_types = "omni" ∷ [];
  state_counter = 1;
  update_time = 6;
  status = SessionStatus.pending;
  failure_message = none;
  expiration_time = none;
}

abbrev second : Session
second = record first { session_id = "b" }

-- No rows yet, and every sequence at 5.
abbrev pub empty : Cells
empty = ((λ k. some (item k 5 0)), (λ k. none))

pub empty-Ready : Ready memory_database 1 5 empty
empty-Ready = record { shows = refl; fresh = λ n later. refl }

pub quiet : IsQuiet memory_database here
quiet e = refl

find-create_example :
    let s' = (create_session memory_database here first empty).1 in
    find_session memory_database here (key_of first) s' ≡ (
      Reply.ok (
          some (record first {
            expiration_time = some (expires here first.expiration_seconds);
            channel_platform_types = members_of first.channel_platform_types channels;
          })),
      s',
    )
find-create_example =
    find-create memory_database here here first 5 empty memory_database-IsLawful quiet empty-Ready
      (omega arith) (omega arith) refl refl

delete_session_lem_example :
    let (reply, s') = delete_session memory_database here first empty in
    let own : ItemKey = session_item first.tenant_id first.session_id in
    let there = not (is_none (rows_of memory_database empty own)) in
    (reply ≡ Reply.ok there)
    × ((k : ItemKey)
        → ((n : ℕ) → (k == event_item first.tenant_id n) ≡ false)
        → rows_of memory_database s' k ≡ (
            if there && (k == own || k == user_item first.tenant_id first.user_id)
            then none
            else rows_of memory_database empty k))
    × Ready memory_database first.tenant_id (5 + 1) s'
delete_session_lem_example =
    delete_session_lem memory_database here first 5 empty memory_database-IsLawful quiet empty-Ready

-- The session `a` failed, and `b` has taken its place.
abbrev replaced : Cells
replaced = (
  (λ k. some (item k 5 0)),
  λ k.
      if k == session_item 1 "a"
      then some (("sessionStatus", Value.str "F") ∷ [])
      else if k == session_item 1 "b"
      then some (("sessionStatus", Value.str "A") ∷ [])
      else none,
)

replaced-Ready : Ready memory_database 1 5 replaced
replaced-Ready = record { shows = refl; fresh = λ n later. refl }

delete_session_strands_example :
    let s' = (delete_session memory_database here first replaced).1 in
    let login : Session = record first { session_id = "c" } in
    let ((time, reply), s'') = create_session memory_database here login s' in
    (reply ≡ Reply.ok none)
    × (memory_database.get_item s'' (session_item first.tenant_id "b")
        ≡ some (("sessionStatus", Value.str "A") ∷ []))
    × (memory_database.get_item s'' (session_item login.tenant_id login.session_id)
        ≡ some (Session.to_record (timed here login)))
delete_session_strands_example =
    delete_session_strands memory_database here here first (record first { session_id = "c" }) "b" 5
      replaced memory_database-IsLawful quiet quiet replaced-Ready refl refl
      (λ e. cc (ap (λ text. text == "a") e)) refl refl refl (λ e. cc (ap (λ text. text == "a") e))

abbrev logins : List Move
logins = creates here first ∷ touches here "a" "u" 90 ∷ creates here second ∷ []

perform_all-OneEach_example :
    OneEach 1 (rows_of memory_database (perform_all memory_database 1 logins empty))
perform_all-OneEach_example =
    perform_all-OneEach memory_database 1 memory_database-IsLawful logins 5 empty empty-Ready
      (λ i row there live. cc there) (quiet, (quiet, (quiet, tt)))

abbrev calls : List Call
calls =
    Call.creates here first
    ∷ Call.finds here "a"
    ∷ Call.creates here second
    ∷ Call.touches here "a" "u" 90
    ∷ Call.deletes here first
    ∷ Call.updates here first
    ∷ []
