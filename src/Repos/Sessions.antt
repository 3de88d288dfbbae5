-- ===== src/Repos/Sessions.antt =====
-- python/shim-service/src/repos/sessions_repo.py: what the session manager asks of the store of
-- sessions, and the operations that the store's base class builds on that.
use shim_service.Base.{
  ℕ, String, ◌≡◌, refl, Bool, true, Option, none, some, if◌then◌else◌, ◌==◌, inl, inr, arith,
}
use shim_service.Session.{
  Session, SessionKey, SessionStatus, Conflict, verify_session_status, status_eq, key_of,
  status-cases,
}

-- What a call gives back: its value, or the exception it raised.
pub data Reply (E A : Type 0) : Type 0 where
  ok : A → Reply E A
  raised : E → Reply E A

-- The exceptions of the web layer that this code raises, and the store's; `other` is one of a
-- service below.
pub data Failure : Type 0 where
  gone bad_request forbidden not_authorized bad_gateway entity_exists assertion : Failure
  user_session_exists : String → Failure
  conflict : Conflict → Failure
  other : String → Failure

-- The abstract operations. `create_session` sets the expiration time of the session it is given,
-- whatever comes of it, and answers that time first; then `none` if it created the session, or the
-- session that the `UserSessionExistsException` names.
pub record SessionsRepo : Type 1 where
  pub State : Type 0
  pub create_session : Session → State → (ℕ × Reply Failure (Option String)) × State
  pub find_session : SessionKey → State → Reply Failure (Option Session) × State
  pub touch_with_event : SessionKey → String → ℕ → State → Reply Failure (Option ℕ) × State
  pub update_session : Session → State → Reply Failure Bool × State
  pub fix_orphaned_user_session : Session → State → Reply Failure Unit × State
  pub delete_session : Session → State → Reply Failure Bool × State

-- The rest of a call after one that may raise.
abbrev pub and_then :
    {S A B : Type 0} → Reply Failure A × S → (A → S → Reply Failure B × S) → Reply Failure B × S
and_then (Reply.ok a, s) rest = rest a s
and_then (Reply.raised e, s) rest = (Reply.raised e, s)

module _ (r : SessionsRepo) where
  -- A session that is missing is gone where its token was in the path.
  unfoldable pub checked_session :
      Bool → Bool → Bool → Option Session → r.State → Reply Failure Session × r.State
  checked_session in_path allow_pending allow_failure none s =
      (Reply.raised (if in_path then Failure.gone else Failure.bad_request), s)
  checked_session in_path allow_pending allow_failure (some session) s =
      if session.status == SessionStatus.active
      then (Reply.ok session, s)
      else elim (verify_session_status session allow_pending allow_failure) [
        | none ↦ (Reply.ok session, s)
        | some c ↦ (Reply.raised (Failure.conflict c), s)
      ]

  unfoldable pub get_session :
      SessionKey → Bool → Bool → Bool → r.State → Reply Failure Session × r.State
  unfolding checked_session
  get_session key in_path allow_pending allow_failure s =
      and_then (r.find_session key s) (checked_session in_path allow_pending allow_failure)

  abbrev pub touch : Session → r.State → Reply Failure (Option ℕ) × r.State
  touch session = r.touch_with_event (key_of session) session.user_id session.expiration_seconds

  -- The base class sets the session's id for the call and restores it after.
  abbrev pub fix_orphaned_session : Session → String → r.State → Reply Failure Unit × r.State
  fix_orphaned_session session session_id =
      r.fix_orphaned_user_session (record session { session_id = session_id })

-- The statuses that a caller of `get_session` lets pass.
abbrev pub allowed : Bool → Bool → SessionStatus → Bool
allowed allow_pending allow_failure SessionStatus.pending = allow_pending
allowed allow_pending allow_failure SessionStatus.active = true
allowed allow_pending allow_failure SessionStatus.failed = allow_failure

-- The conflict of a status that is not let pass.
abbrev pub conflict_of : Session → SessionStatus → Failure
conflict_of session SessionStatus.failed =
    Failure.conflict (Conflict.in_failed_state session.failure_message)
conflict_of session _ = Failure.conflict Conflict.creation_in_progress

-- `get_session` answers the session that it finds exactly where its caller lets the status pass,
-- and else raises the conflict of that status; it changes nothing that finding does not change.
pub get_session_lem :
    (r : SessionsRepo) (key : SessionKey) (in_path allow_pending allow_failure : Bool)
    (s s' : r.State) (session : Session)
    → r.find_session key s ≡ (Reply.ok (some session), s')
    → get_session r key in_path allow_pending allow_failure s ≡ (
        if allowed allow_pending allow_failure session.status
        then (Reply.ok session, s')
        else (Reply.raised (conflict_of session session.status), s'))
unfolding get_session checked_session verify_session_status
get_session_lem r key in_path p f s s' session found = elim (status-cases session.status) [
  | inl e ↦ rw (found, e) (ground arith)
  | inr (inl e) ↦ rw (found, e) refl
  | inr (inr e) ↦ rw (found, e) (ground arith)
]
