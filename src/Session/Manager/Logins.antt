-- ===== src/Session/Manager/Logins.antt =====
-- What a login comes to: the session it answers, and how often it asks the store for one.
use shim_service.Base.{
  ℕ, zero, suc, ◌+◌, ◌≡◌, refl, String, Bool, true, false, Option, none, some, ltb, ◌==◌, option_eq,
  option_beq, option_beq_iff, string_eq, nat_eq, arith, Bool-cases, inl, inr,
}
use shim_service.Session.{
  Session, SessionStatus, can_replace_session, should_replace_session, status_eq,
}
use shim_service.Repos.Sessions.{
  Reply, Failure, SessionsRepo, and_then, touch, fix_orphaned_session,
}
use shim_service.Session.Manager.{
  Login, answer_or, keep_current, replace_current, remove_orphan, replace_or_keep, examine_current,
  check_replace_session, after_create, create_session_with, is_touched,
}

-- The same user on the same device with the same access token.
abbrev pub SameLogin : Session → Session → Type 0
SameLogin a b =
    (a.tenant_id ≡ b.tenant_id)
    × (a.user_id ≡ b.user_id)
    × (a.fcm_device_token ≡ b.fcm_device_token)
    × (a.access_token ≡ b.access_token)

can_replace_lem :
    (a b : Session)
    → can_replace_session a b ≡ true
    → (a.tenant_id ≡ b.tenant_id)
      × (a.user_id ≡ b.user_id)
      × (a.fcm_device_token ≡ b.fcm_device_token)
unfolding can_replace_session
can_replace_lem a b h = ground (
  arith,
  nat_eq.beq_iff a.tenant_id b.tenant_id,
  string_eq.beq_iff a.user_id b.user_id,
  option_beq_iff ⦃e = string_eq⦄ a.fcm_device_token b.fcm_device_token,
)

module _ (r : SessionsRepo) where
  -- A login that is answered is answered with a session of the same login.
  abbrev pub Answers : Session → Login r → Type 0
  Answers session (Reply.raised e, s) = Unit
  Answers session (Reply.ok (answer, created), s) = SameLogin answer session

  -- The same for what runs after a call of the store.
  and_then-Answers :
      {A : Type 0} (session : Session) (reply : Reply Failure A × r.State)
      (rest : A → r.State → Login r)
      → ((a : A) (s : r.State) → Answers session (rest a s))
      → Answers session (and_then reply rest)
  and_then-Answers session (Reply.ok a, s) rest h = h a s
  and_then-Answers session (Reply.raised e, s) rest h = tt

  module _ (session : Session) (rest : Session → r.State → Login r)
      (again : (s : r.State) → Answers session (rest session s)) where
    answer_or-Answers :
        (b : Bool) (answer : Session) (s : r.State)
        → SameLogin answer session
        → Answers session (answer_or r b answer rest session s)
    unfolding answer_or
    answer_or-Answers true answer s same = same
    answer_or-Answers false answer s same = again s

    keep-Answers :
        (current : Session) (s : r.State)
        → SameLogin current session
        → Answers session (keep_current r current session rest s)
    unfolding keep_current
    keep-Answers current s same =
        elim (Bool-cases (ltb session.update_time (current.update_time + 60))) [
          | inl fresh ↦ rw fresh same
          | inr old ↦ rw old (
              and_then-Answers session (touch r current s)
                (λ touched. answer_or r (is_touched touched) current rest session)
                (λ touched s'. answer_or-Answers (is_touched touched) current s' same))
        ]

    replace-Answers :
        (current : Session) (s : r.State)
        → Answers session (replace_current r current session rest s)
    unfolding replace_current
    replace-Answers current s =
        let session_copy : Session = record session {
          state_counter = current.state_counter;
          session_id = current.session_id;
        } in
        and_then-Answers session (r.update_session session_copy s)
          (λ updated. answer_or r updated session_copy rest session)
          (λ updated s'. answer_or-Answers updated session_copy s' (refl, refl, refl, refl))

    remove-Answers :
        (existing : String) (s : r.State)
        → Answers session (remove_orphan r existing session rest s)
    unfolding remove_orphan
    remove-Answers existing s =
        and_then-Answers session (fix_orphaned_session r session existing s) (λ fixed. rest session)
          (λ fixed. again)

    choose-Answers :
        (current : Session) (s : r.State)
        → can_replace_session current session ≡ true
        → Answers session
            (replace_or_keep r current session rest (should_replace_session current session) s)
    unfolding replace_or_keep should_replace_session
    choose-Answers current s can =
        elim (Bool-cases (option_beq current.access_token session.access_token)) [
          | inl same ↦
              rw (can, same)
                (keep-Answers current s (
                  let (tenant, user, device) = can_replace_lem current session can in
                  (
                    tenant,
                    user,
                    device,
                    (option_beq_iff ⦃e = string_eq⦄ current.access_token session.access_token).0
                        same,
                  )))
          | inr other ↦ rw (can, other) (replace-Answers current s)
        ]

    examine-Answers :
        (existing : String) (found : Option Session) (s : r.State)
        → Answers session (examine_current r existing session rest found s)
    unfolding examine_current
    examine-Answers existing none s = remove-Answers existing s
    examine-Answers existing (some current) s =
        elim (Bool-cases (current.status == SessionStatus.failed)) [
          | inl failed ↦ rw failed (remove-Answers existing s)
          | inr live ↦ elim (Bool-cases (can_replace_session current session)) [
            | inl can ↦ rw (live, can) (choose-Answers current s can)
            | inr cannot ↦ rw (live, cannot) tt
          ]
        ]

    check-Answers :
        (existing : String) (s : r.State)
        → Answers session (check_replace_session r session existing rest s)
    unfolding check_replace_session
    check-Answers existing s =
        and_then-Answers session
          (r.find_session (record { tenant_id = session.tenant_id; session_id = existing }) s)
          (examine_current r existing session rest) (λ found s'. examine-Answers existing found s')

  -- The expiration time is no part of a login.
  expires-Answers :
      (session : Session) (expires : Option ℕ) (x : Login r)
      → Answers (record session { expiration_time = expires }) x
      → Answers session x
  expires-Answers session expires (Reply.raised e, s) h = tt
  expires-Answers session expires (Reply.ok (answer, created), s) h = h

  after-Answers :
      (session : Session) (exists_ : Session → String → r.State → Login r)
      (reply : (ℕ × Reply Failure (Option String)) × r.State)
      → ((same : Session) (existing : String) (s : r.State)
          → Answers same (exists_ same existing s))
      → Answers session (after_create r session exists_ reply)
  unfolding after_create
  after-Answers session exists_ ((expires, Reply.raised e), s) h = tt
  after-Answers session exists_ ((expires, Reply.ok none), s) h = (refl, refl, refl, refl)
  after-Answers session exists_ ((expires, Reply.ok (some existing)), s) h =
      let same : Session = record session { expiration_time = some expires } in
      expires-Answers session (some expires) (exists_ same existing s) (h same existing s)

  -- A login that is answered, whether with a session that was created, kept or replaced, is
  -- answered with a session of the same tenant, user, device and access token.
  pub create_session_with-SameLogin :
      (retries : ℕ) (session : Session) (s : r.State)
      → Answers session (create_session_with r retries session s)
  unfolding create_session_with
  create_session_with-SameLogin zero session s =
      after-Answers session
        (λ same existing s'. (Reply.raised (Failure.user_session_exists existing), s'))
        (r.create_session session s) (λ same existing s'. tt)
  create_session_with-SameLogin (suc retries) session s =
      after-Answers session
        (λ same existing s'.
          check_replace_session r same existing (create_session_with r retries) s')
        (r.create_session session s)
        (λ same existing s'.
          check-Answers same (create_session_with r retries)
            (create_session_with-SameLogin retries same) existing s')
