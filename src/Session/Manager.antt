-- ===== src/Session/Manager.antt =====
-- python/shim-service/src/session/manager.py: how a user's login becomes a session.
pub mod Logins
pub mod Attempts
use shim_service.Base.{
  ℕ, zero, suc, ◌+◌, String, Bool, true, false, ◌||◌, ◌&&◌, not, Option, none, some, ltb,
  if◌then◌else◌, ◌==◌, option_eq, string_eq,
}
use shim_service.Session.{
  Session, SessionKey, SessionStatus, can_replace_session, should_replace_session, set_failed,
  key_of, status_eq,
}
use shim_service.Session.Users.{UserSession}
use shim_service.Repos.Sessions.{
  Reply, Failure, SessionsRepo, and_then, touch, fix_orphaned_session,
}

-- `if touched:` on the expiration time that `touch` answers.
abbrev pub is_touched : Option ℕ → Bool
is_touched none = false
is_touched (some time) = ltb 0 time

module _ (r : SessionsRepo) where
  abbrev pub Login : Type 0
  Login = Reply Failure (Session × Bool) × r.State

  -- The end of each way through `__check_replace_session`: a session, or another attempt.
  answer_or : Bool → Session → (Session → r.State → Login) → Session → r.State → Login
  answer_or true answer rest session s = (Reply.ok (answer, false), s)
  answer_or false answer rest session s = rest session s

  -- Nothing to replace: the session is still fresh, or it is touched.
  keep_current : Session → Session → (Session → r.State → Login) → r.State → Login
  unfolding answer_or
  keep_current current session rest s =
      if ltb session.update_time (current.update_time + 60)
      then (Reply.ok (current, false), s)
      else and_then (touch r current s)
          (λ touched. answer_or (is_touched touched) current rest session)

  -- The new login takes over the session's id and its state counter.
  replace_current : Session → Session → (Session → r.State → Login) → r.State → Login
  unfolding answer_or
  replace_current current session rest s =
      let session_copy : Session = record session {
        state_counter = current.state_counter;
        session_id = current.session_id;
      } in
      and_then (r.update_session session_copy s)
        (λ updated. answer_or updated session_copy rest session)

  -- An orphan, or a session that failed, makes room.
  remove_orphan : String → Session → (Session → r.State → Login) → r.State → Login
  remove_orphan existing session rest s =
      and_then (fix_orphaned_session r session existing s) (λ fixed. rest session)

  replace_or_keep : Session → Session → (Session → r.State → Login) → Option Bool → r.State → Login
  unfolding keep_current replace_current
  replace_or_keep current session rest none s = (Reply.raised Failure.assertion, s)
  replace_or_keep current session rest (some true) s = replace_current current session rest s
  replace_or_keep current session rest (some false) s = keep_current current session rest s

  examine_current :
      String → Session → (Session → r.State → Login) → Option Session → r.State → Login
  unfolding remove_orphan replace_or_keep
  examine_current existing session rest none s = remove_orphan existing session rest s
  examine_current existing session rest (some current) s =
      if current.status == SessionStatus.failed
      then remove_orphan existing session rest s
      else if can_replace_session current session
      then replace_or_keep current session rest (should_replace_session current session) s
      else (Reply.raised (Failure.user_session_exists existing), s)

  -- `__check_replace_session`, `rest` being the next `__create_session`.
  check_replace_session : Session → String → (Session → r.State → Login) → r.State → Login
  unfolding examine_current
  check_replace_session session existing rest s =
      and_then (r.find_session (record { tenant_id = session.tenant_id; session_id = existing }) s)
        (examine_current existing session rest)

  -- What `__create_session` does with the reply of the store, which has set the expiration time.
  after_create :
      Session
      → (Session → String → r.State → Login)
      → (ℕ × Reply Failure (Option String)) × r.State
      → Login
  after_create session exists_ ((expires, Reply.raised e), s) = (Reply.raised e, s)
  after_create session exists_ ((expires, Reply.ok none), s) =
      (Reply.ok (record session { expiration_time = some expires }, true), s)
  after_create session exists_ ((expires, Reply.ok (some existing)), s) =
      exists_ (record session { expiration_time = some expires }) existing s

  -- `__create_session`; the fuel is what the `RetryCounter` has left, `max_retries - count`.
  unfoldable pub create_session_with : ℕ → Session → r.State → Login
  unfolding after_create check_replace_session
  create_session_with zero session s =
      after_create session
        (λ same existing s'. (Reply.raised (Failure.user_session_exists existing), s'))
        (r.create_session session s)
  create_session_with (suc retries) session s =
      let rest = create_session_with retries in
      after_create session (λ same existing s'. check_replace_session same existing rest s')
        (r.create_session session s)

  -- `__check_fcm_token`: the device token of a user is verified where it is not the one on record.
  unfoldable pub check_fcm_token :
      (Option String → Option String) → Session → Option UserSession → Option Failure
  check_fcm_token verify session none = elim (verify session.fcm_device_token) [
    | none ↦ none
    | some message ↦ some Failure.bad_request
  ]
  check_fcm_token verify session (some current) =
      if current.fcm_device_token == session.fcm_device_token
      then none
      else elim (verify session.fcm_device_token) [
        | none ↦ none
        | some message ↦ some Failure.bad_request
      ]

  -- `__connect_session_async`, given the message of the exception that the invoker raised, if any.
  record_failure : String → Option Session → r.State → Reply Failure Bool × r.State
  record_failure message none s = (Reply.raised Failure.bad_gateway, s)
  record_failure message (some session) s =
      and_then (r.update_session (set_failed session message) s)
        (λ updated s'. (Reply.raised Failure.bad_gateway, s'))

  unfoldable pub connect_session_async :
      Option String → Session → r.State → Reply Failure Bool × r.State
  unfolding record_failure
  connect_session_async none session s = (Reply.ok true, s)
  connect_session_async (some message) session s =
      and_then (r.find_session (key_of session) s) (record_failure message)
