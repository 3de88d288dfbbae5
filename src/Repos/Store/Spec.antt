-- ===== src/Repos/Store/Spec.antt =====
-- The contract of the store of python/shim-service/src/repos/aws/aws_sessions.py for one tenant:
-- three maps, of the sessions, of their users and of the Salesforce sessions, and what each call
-- answers and writes, with no word of keys, conditions, transactions, locks and events.
pub mod Views
pub mod Touches
pub mod Refines
use shim_service.Base.{
  ℕ, String, Bool, true, false, Option, none, some, List, [], ◌∷◌, if◌then◌else◌, ◌==◌, string_eq,
  ◌+◌, nat_eq, option_eq, not,
}
use shim_service.Base.Dict.{lookup, insert}
use shim_service.Records.{Value, Record, value_eq}
use shim_service.Session
use shim_service.Session.{Session}
use shim_service.Session.Users
use shim_service.Session.Users.{to_user_session}
use shim_service.Repos.Sessions.{Reply, Failure}
use shim_service.Repos.Table.{is_none}
use shim_service.Repos.Database.{patched}
use shim_service.Repos.Store.{Surroundings, expires}
use shim_service.Repos.Store.Creates.{create_reply, timed}

abbrev pub Map : Type 0
Map = String → Option Record

pub record Tenant : Type 0 where
  pub sessions : Map
  pub users : Map
  pub sfdc_sessions : Map

abbrev pub set_at : Map → String → Option Record → Map
set_at f i v j = let old = f j in if j == i then v else old

pub data Answer : Type 0 where
  created : ℕ × Reply Failure (Option String) → Answer
  answered : Reply Failure Bool → Answer
  fixed : Reply Failure Unit → Answer
  touched : Reply Failure (Option ℕ) → Answer
  found : Reply Failure (Option Session) → Answer

pub data Call : Type 0 where
  creates updates deletes fixes : Surroundings → Session → Call
  touches : Surroundings → String → String → ℕ → Call
  finds : Surroundings → String → Call

-- A session is created where neither it nor a session of its user is there.
abbrev pub with_new : Surroundings → Session → Option Record → Option Record → Tenant → Tenant
with_new env session (some row) old_user t = t
with_new env session none (some row) t = t
with_new env session none none t = record t {
  sessions = set_at t.sessions session.session_id (some (Session.to_record (timed env session)));
  users = set_at t.users session.user_id (
      some (
        insert "expireTime" (Value.int (expires env session.expiration_seconds))
          (Users.to_record (to_user_session (timed env session)))));
}

-- A session is updated where its state counter is the stored one, which goes up.
abbrev pub counts : Session → Option Record → Bool
counts session none = false
counts session (some row) = lookup "stateCounter" row == some (Value.int session.state_counter)

-- What the update leaves of the stored record.
abbrev pub renewed : Surroundings → Session → Option Record → Option Record
renewed env session none = none
renewed env session (some row) = some (
    patched
      (insert "updateTime" (Value.int env.millis)
        (insert "stateCounter" (Value.int (session.state_counter + 1)) (Session.to_record session)))
      row)

abbrev pub with_update : Surroundings → Session → Tenant → Tenant
with_update env session t = record t {
  sessions =
      set_at t.sessions session.session_id (renewed env session (t.sessions session.session_id));
}

abbrev pub without : Session → Tenant → Tenant
without session t = record t {
  sessions = set_at t.sessions session.session_id none;
  users = set_at t.users session.user_id none;
}

-- A session is touched where its three rows are there.
abbrev pub all_there : Option Record → Option Record → Option Record → Bool
all_there (some a) (some b) (some c) = true
all_there (some a) (some b) none = false
all_there (some a) none c = false
all_there none b c = false

abbrev pub expiring : ℕ → Option Record → Option Record
expiring time none = none
expiring time (some row) = some (insert "expireTime" (Value.int time) row)

abbrev pub with_expiry : String → String → ℕ → Tenant → Tenant
with_expiry session_id user_id time t = record {
  sessions = set_at t.sessions session_id (expiring time (t.sessions session_id));
  users = set_at t.users user_id (expiring time (t.users user_id));
  sfdc_sessions = set_at t.sfdc_sessions session_id (expiring time (t.sfdc_sessions session_id));
}

abbrev pub read : Option Record → ℕ → Reply Failure (Option Session)
read none now = Reply.ok none
read (some row) now = elim (Session.from_record row now) [
  | none ↦ Reply.raised (Failure.other "KeyError")
  | some session ↦ Reply.ok (some session)
]

-- The calls are for sessions of the tenant.
abbrev pub of_tenant : ℕ → Session → Session
of_tenant tenant_id session = record session { tenant_id = tenant_id }

unfoldable pub promised : ℕ → Call → Tenant → Answer × Tenant
promised tenant_id (creates env session) t =
    let old_session = t.sessions session.session_id in
    let old_user = t.users session.user_id in
    (
      created (expires env session.expiration_seconds, create_reply old_session old_user),
      with_new env (of_tenant tenant_id session) old_session old_user t,
    )
promised tenant_id (updates env session) t =
    let ok = counts session (t.sessions session.session_id) in
    (answered (Reply.ok ok), if ok then with_update env (of_tenant tenant_id session) t else t)
promised tenant_id (deletes env session) t =
    let ok = not (is_none (t.sessions session.session_id)) in
    (answered (Reply.ok ok), if ok then without session t else t)
promised tenant_id (fixes env session) t =
    (fixed (Reply.ok tt), record t { users = set_at t.users session.user_id none })
promised tenant_id (touches env session_id user_id seconds) t =
    let time = expires env seconds in
    let ok = all_there (t.sessions session_id) (t.users user_id) (t.sfdc_sessions session_id) in
    (
      touched (Reply.ok (if ok then some time else none)),
      if ok then with_expiry session_id user_id time t else t,
    )
promised tenant_id (finds env session_id) t = (found (read (t.sessions session_id) env.millis), t)

unfoldable pub promised_all : ℕ → List Call → Tenant → List Answer × Tenant
promised_all tenant_id [] t = ([], t)
promised_all tenant_id (c ∷ cs) t =
    let (answer, t') = promised tenant_id c t in
    let (answers, t'') = promised_all tenant_id cs t' in (answer ∷ answers, t'')
