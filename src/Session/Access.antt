-- ===== src/Session/Access.antt =====
-- python/shim-service/src/session/manager.py: the session that a request's token names, and what is
-- done with it. Header and path hold the token; a text of it is read as a native string.
use shim_service.Base.{
  ℕ, ◌≡◌, String, Bool, true, false, ◌&&◌, ◌||◌, not, Option, none, some, if◌then◌else◌, ◌==◌,
  string_eq, arith, inl, inr,
}
use shim_service.Base.Texts.{Text}
use shim_service.Session.{
  Session, SessionKey, SessionStatus, verify_session_status, status_eq, status-cases,
}
use shim_service.Session.Tokens.{SessionToken, deserialize}
use shim_service.Repos.Sessions.{
  Reply, Failure, SessionsRepo, and_then, get_session, get_session_lem, touch, conflict_of,
}

-- The token's text and whether it was in the path; none is the `NotAuthorizedException`.
abbrev pub token_text : Option Text → Option Text → Option (Text × Bool)
token_text (some token) header = some (token, true)
token_text none (some header) = some (header, false)
token_text none none = none

module _ (r : SessionsRepo) (string_of : Text → String) where
  -- The checks of `__load_session` after the store's.
  unfoldable pub checked :
      SessionToken → Bool → Bool → Session → r.State → Reply Failure Session × r.State
  checked token allow_pending allow_failure session s =
      if session.user_id == string_of token.user_id
      then (if not allow_pending || not allow_failure
          then elim (verify_session_status session allow_pending false) [
            | none ↦ (Reply.ok session, s)
            | some c ↦ (Reply.raised (Failure.conflict c), s)
          ]
          else (Reply.ok session, s))
      else (Reply.raised Failure.not_authorized, s)

  abbrev pub token_key : SessionToken → SessionKey
  token_key token = record { tenant_id = token.tenant_id; session_id = string_of token.session_id }

  module _ (clarify : Text → Option Text) (has_access : ℕ → Bool) where
    -- `__load_session`: `clarify` and `has_access` are the credentials'.
    unfoldable pub load_session :
        Option Text → Option Text → Bool → Bool → r.State → Reply Failure Session × r.State
    unfolding checked
    load_session path header allow_pending allow_failure s = elim (token_text path header) [
      | none ↦ (Reply.raised Failure.not_authorized, s)
      | some given ↦ elim (deserialize (λ t. t) clarify given.0) [
        | none ↦ (Reply.raised Failure.not_authorized, s)
        | some token ↦
            if has_access token.tenant_id
            then and_then (get_session r (token_key token) given.1 true allow_failure s)
                (checked token allow_pending allow_failure)
            else (Reply.raised Failure.forbidden, s)
      ]
    ]

    -- `verify_session`: the session that the request is given.
    abbrev pub verify_session : Option Text → r.State → Reply Failure Session × r.State
    verify_session header = load_session none header false false

    abbrev pub touched : Option ℕ → r.State → Reply Failure ℕ × r.State
    touched none s = (Reply.raised Failure.gone, s)
    touched (some time) s = (Reply.ok time, s)

    unfoldable pub keepalive : Text → r.State → Reply Failure ℕ × r.State
    unfolding load_session
    keepalive token s =
        and_then (load_session (some token) none false false s)
          (λ session s'. and_then (touch r session s') touched)

    unfoldable pub delete_session_by_token : Text → r.State → Reply Failure Bool × r.State
    unfolding load_session
    delete_session_by_token token s =
        and_then (load_session (some token) none true true s) r.delete_session

    -- Which statuses a load lets pass.
    abbrev pub loadable : Bool → Bool → SessionStatus → Bool
    loadable allow_pending allow_failure SessionStatus.pending = allow_pending
    loadable allow_pending allow_failure SessionStatus.active = true
    loadable allow_pending allow_failure SessionStatus.failed = allow_pending && allow_failure

    -- A request whose token is read, from its path (whatever header it has) or else from its
    -- header, whose tenant it may access and whose user the session found has, loads that session exactly where its status is let pass: a failed one only where the
    -- caller allows both pending and failed ones. Otherwise it is answered the status's conflict.
    pub load_session_lem :
        (text : Text) (header : Option Text) (allow_pending allow_failure : Bool)
        (token : SessionToken) (session : Session) (s s' : r.State)
        → deserialize (λ t. t) clarify text ≡ some token
        → has_access token.tenant_id ≡ true
        → r.find_session (token_key token) s ≡ (Reply.ok (some session), s')
        → session.user_id ≡ string_of token.user_id
        → let answer : Reply Failure Session × r.State =
            if loadable allow_pending allow_failure session.status
            then (Reply.ok session, s')
            else (Reply.raised (conflict_of session session.status), s') in
          (load_session (some text) header allow_pending allow_failure s ≡ answer)
          × (load_session none (some text) allow_pending allow_failure s ≡ answer)
    unfolding load_session checked verify_session_status
    load_session_lem text header p f token session s s' read_ access found user =
        let same = (string_eq.beq_iff session.user_id (string_of token.user_id)).1 user in
        let in_path = get_session_lem r (token_key token) true true f s s' session found in
        let in_header = get_session_lem r (token_key token) false true f s s' session found in
        elim (status-cases session.status) [
          | inl e ↦ (
            rw (read_, load_session, access, in_path, e, same) (ground arith),
            rw (read_, load_session, access, in_header, e, same) (ground arith),
          )
          | inr (inl e) ↦ (
            rw (read_, load_session, access, in_path, e, same) (ground arith),
            rw (read_, load_session, access, in_header, e, same) (ground arith),
          )
          | inr (inr e) ↦ (
            rw (read_, load_session, access, in_path, e) (ground (arith, same)),
            rw (read_, load_session, access, in_header, e) (ground (arith, same)),
          )
        ]
