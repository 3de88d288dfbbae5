-- ===== src/Repos/Store.antt =====
-- python/shim-service/src/repos/aws/aws_sessions.py, with the rows of aws_user_sessions.py and
-- aws_sfdc_sessions_repo.py: the store of sessions, each write a transaction that runs under the
-- tenant's sequence of events (aws_sequence.py: execute_with_event) and puts the event too.
pub mod Transactions
pub mod Writes
pub mod Creates
pub mod Logins
pub mod Deletes
pub mod Owners
pub mod Spec
pub mod Contexts
use shim_service.Base.{
  ℕ, zero, suc, ◌+◌, ◌/◌, ◌≡◌, String, ◌<>◌, Bool, true, false, Option, none, some, List, [], ◌∷◌,
  ◌++◌, map, if◌then◌else◌, ◌>>=◌, nat_eq, string_eq, pair_eq,
}
use shim_service.Base.Dict.{Dict, lookup, insert}
use shim_service.Utils.Dates.{get_system_time_in_seconds}
use shim_service.Records.{Value, Record}
use shim_service.Session
use shim_service.Session.{Session, SessionKey, SessionStatus}
use shim_service.Session.Users
use shim_service.Session.Users.{UserSession, to_user_session}
use shim_service.Events
use shim_service.Events.{Event, EventType}
use shim_service.Repos.Sessions.{Reply, Failure, SessionsRepo}
use shim_service.Repos.Batch
use shim_service.Repos.Batch.{Transaction, transact_write}
use shim_service.Repos.Sequence.{execute}
use shim_service.Repos.Database.{ItemKey, Request, Database}

-- The tables of repos/aws/__init__.py, and the keys that the repositories build of their arguments.
abbrev pub session_item : ℕ → String → ItemKey
session_item tenant_id session_id = (("ShimServiceSession", tenant_id), (session_id, 0))

abbrev pub user_item : ℕ → String → ItemKey
user_item tenant_id user_id = (("UserSession", tenant_id), (user_id, 0))

abbrev pub sfdc_item : ℕ → String → ItemKey
sfdc_item tenant_id session_id = (("SfdcSession", tenant_id), (session_id, 0))

abbrev pub event_item : ℕ → ℕ → ItemKey
event_item tenant_id seq_no = (("ShimServiceEvent", tenant_id), ("", seq_no))

-- What the data of an event hold: a text, or a list of texts.
pub data Datum : Type 0 where
  text : String → Datum
  texts : List String → Datum

-- What a call takes from outside: the clock, in milliseconds, at the call and twice at each attempt to
-- lock the sequence; the id and the time of a new event; `json.dumps`; and the listeners, which add
-- requests for an event.
pub record Surroundings : Type 0 where
  pub millis : ℕ
  pub clock : ℕ → ℕ × ℕ
  pub event_id : String
  pub dumps : Dict String Datum → String
  pub examine_event : Event → List Request

-- A request with its place in the list, by which the code tells it from the others.
abbrev pub numbered : ℕ → List Request → List (ℕ × Request)
numbered n [] = []
numbered n (r ∷ rs) = (n, r) ∷ numbered (n + 1) rs

abbrev pub event_of : Session → Dict String Datum
event_of session =
    ("sessionId", Datum.text session.session_id) ∷ ("userId", Datum.text session.user_id) ∷ []

abbrev pub expires : Surroundings → ℕ → ℕ
expires env seconds = get_system_time_in_seconds env.millis + seconds

-- The two requests of `create_session`, for a session with its expiration time.
abbrev pub create_requests : Session → ℕ → List Request
create_requests session expire_time =
    Request.put (session_item session.tenant_id session.session_id) (Session.to_record session)
    ∷ Request.put (user_item session.tenant_id session.user_id)
        (insert "expireTime" (Value.int expire_time) (Users.to_record (to_user_session session)))
    ∷ []

-- `create_update_with_state_check_request`: the whole record, with the next state counter, where
-- the counter is still the session's. The row's own key attributes, which the patch names too, are
-- what they were.
abbrev pub update_with_state_check : Surroundings → Session → Request
update_with_state_check env session =
    Request.update (session_item session.tenant_id session.session_id)
      (insert "updateTime" (Value.int env.millis)
        (insert "stateCounter" (Value.int (session.state_counter + 1)) (Session.to_record session)))
      (("stateCounter", Value.int session.state_counter) ∷ []) true

abbrev pub touch_requests : SessionKey → String → ℕ → List Request
touch_requests key user_id expiration_time =
    let patch : Record = ("expireTime", Value.int expiration_time) ∷ [] in
    Request.update (session_item key.tenant_id key.session_id) patch [] true
    ∷ Request.update (user_item key.tenant_id user_id) patch [] true
    ∷ Request.update (sfdc_item key.tenant_id key.session_id) patch [] true
    ∷ []

abbrev pub delete_requests : Session → List Request
delete_requests session =
    Request.delete (session_item session.tenant_id session.session_id) true
    ∷ Request.delete (user_item session.tenant_id session.user_id) false
    ∷ []

module _ (db : Database) (env : Surroundings) where
  abbrev pub State : Type 0
  State = db.sequences.State

  abbrev pub put_event : Event → Request
  put_event e = Request.put (event_item e.tenant_id e.seq_no) (Events.to_record e)

  abbrev pub new_event : ℕ → ℕ → EventType → Dict String Datum → Event
  new_event tenant_id seq_no event_type event_data = record {
    tenant_id = tenant_id;
    seq_no = seq_no;
    event_type = event_type;
    event_id = env.event_id;
    event_data = some (env.dumps event_data);
    created_time = env.millis;
  }

  -- The requests of `execute_with_event`: the caller's, the event and what the listeners add, who
  -- see the event before it has its number.
  unfoldable pub event_requests :
      ℕ → List Request → EventType → Dict String Datum → ℕ → List Request
  event_requests tenant_id requests event_type event_data seq_no =
      requests
      ++ (put_event (new_event tenant_id seq_no event_type event_data)
          ∷ env.examine_event (new_event tenant_id 0 event_type event_data))

  answer_of :
      List Request → Option (List (Option String)) × State → Transaction (ℕ × Request) × State
  answer_of requests (answer, s) = (transact_write answer (numbered 0 requests), s)

  pub inner : List Request → State → Transaction (ℕ × Request) × State
  unfolding answer_of
  inner requests s = answer_of requests (db.transact requests s)

  pub raise_or : Option (Transaction (ℕ × Request)) → Reply Failure (Option ℕ)
  raise_or none = Reply.raised (Failure.other "OptimisticLockException")
  raise_or (some Transaction.cancelled) =
      Reply.raised (Failure.other "TransactionCancelledException")
  raise_or (some Transaction.written) = Reply.ok none
  raise_or (some (Transaction.failed_for (i, r))) = Reply.ok (some i)

  -- `execute_with_event`: the place of the request that the transaction failed for, if any.
  unfoldable pub execute_with_event :
      ℕ → List Request → EventType → Dict String Datum → State → Reply Failure (Option ℕ) × State
  unfolding inner raise_or event_requests
  execute_with_event tenant_id requests event_type event_data s =
      let (answer, s') =
        execute db.sequences (tenant_id, "EventSeq") 30 env.clock (λ i u. u)
          (λ seq_no. inner (event_requests tenant_id requests event_type event_data seq_no)) s in
      (raise_or answer, s')

  -- `find_session`, and `find_by_session` of the user's session. A row that is no record raises.
  found : Option Record → Reply Failure (Option Session)
  found none = Reply.ok none
  found (some row) = elim (Session.from_record row env.millis) [
    | none ↦ Reply.raised (Failure.other "KeyError")
    | some session ↦ Reply.ok (some session)
  ]

  unfoldable pub find_session : SessionKey → State → Reply Failure (Option Session) × State
  unfolding found
  find_session key s = (found (db.get_item s (session_item key.tenant_id key.session_id)), s)

  -- `create_session` after its transaction.
  existing : Option Record → Reply Failure (Option String)
  existing none = Reply.raised Failure.entity_exists
  existing (some row) = elim (Users.from_record row) [
    | none ↦ Reply.raised (Failure.other "KeyError")
    | some user_session ↦ Reply.ok (some user_session.session_id)
  ]

  after_create : Session → Reply Failure (Option ℕ) × State → Reply Failure (Option String) × State
  unfolding existing
  after_create session (Reply.raised e, s) = (Reply.raised e, s)
  after_create session (Reply.ok none, s) = (Reply.ok none, s)
  after_create session (Reply.ok (some zero), s) = (Reply.raised Failure.entity_exists, s)
  after_create session (Reply.ok (some (suc zero)), s) =
      (existing (db.get_item s (user_item session.tenant_id session.user_id)), s)
  after_create session (Reply.ok (some (suc (suc i))), s) = (Reply.raised Failure.entity_exists, s)

  unfoldable pub create_session : Session → State → (ℕ × Reply Failure (Option String)) × State
  unfolding after_create
  create_session session s =
      let expire_time = expires env session.expiration_seconds in
      let timed : Session = record session { expiration_time = some expire_time } in
      let (reply, s') = after_create session (
        execute_with_event session.tenant_id (create_requests timed expire_time)
          EventType.session_created (event_of session) s) in
      ((expire_time, reply), s')

  -- `bad_request is None`
  pub succeeded : Reply Failure (Option ℕ) × State → Reply Failure Bool × State
  succeeded (Reply.raised e, s) = (Reply.raised e, s)
  succeeded (Reply.ok none, s) = (Reply.ok true, s)
  succeeded (Reply.ok (some i), s) = (Reply.ok false, s)

  unfoldable pub update_session : Session → State → Reply Failure Bool × State
  unfolding succeeded
  update_session session s = succeeded (
      execute_with_event session.tenant_id (update_with_state_check env session ∷ [])
        EventType.session_updated (event_of session) s)

  pub touched : ℕ → Reply Failure (Option ℕ) × State → Reply Failure (Option ℕ) × State
  touched expiration_time (Reply.raised e, s) = (Reply.raised e, s)
  touched expiration_time (Reply.ok none, s) = (Reply.ok (some expiration_time), s)
  touched expiration_time (Reply.ok (some i), s) = (Reply.ok none, s)

  unfoldable pub touch_with_event :
      SessionKey → String → ℕ → State → Reply Failure (Option ℕ) × State
  unfolding touched
  touch_with_event key user_id expiration_seconds s =
      let expiration_time = expires env expiration_seconds in
      touched expiration_time (
        execute_with_event key.tenant_id (touch_requests key user_id expiration_time)
          EventType.session_touched
          (("sessionId", Datum.text key.session_id) ∷ ("userId", Datum.text user_id) ∷ []) s)

  unfoldable pub delete_session : Session → State → Reply Failure Bool × State
  unfolding succeeded
  delete_session session s = succeeded (
      execute_with_event session.tenant_id (delete_requests session) EventType.session_deleted
        (event_of session) s)

  -- A batch write of one delete, which has no condition.
  unfoldable pub fix_orphaned_user_session : Session → State → Reply Failure Unit × State
  fix_orphaned_user_session session s = (
    Reply.ok tt,
    (db.transact (Request.delete (user_item session.tenant_id session.user_id) false ∷ []) s).1,
  )

  -- The store as the session manager is given it.
  unfoldable pub aws_sessions : SessionsRepo
  aws_sessions = record {
    State = State;
    create_session = create_session;
    find_session = find_session;
    touch_with_event = touch_with_event;
    update_session = update_session;
    fix_orphaned_user_session = fix_orphaned_user_session;
    delete_session = delete_session;
  }
