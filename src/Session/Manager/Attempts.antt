-- ===== src/Session/Manager/Attempts.antt =====
-- How often a login asks the store to create a session.
use shim_service.Base.{
  ℕ, zero, suc, ◌+◌, ◌≤◌, ◌≡◌, String, Bool, true, false, Option, none, some, ltb, ◌==◌, arith,
  Bool-cases, inl, inr,
}
use shim_service.Session.{
  Session, SessionKey, SessionStatus, can_replace_session, should_replace_session, status_eq,
  key_of,
}
use shim_service.Repos.Sessions.{
  Reply, Failure, SessionsRepo, and_then, touch, fix_orphaned_session,
}
use shim_service.Session.Manager.{
  Login, answer_or, keep_current, replace_current, remove_orphan, replace_or_keep, examine_current,
  check_replace_session, after_create, create_session_with, is_touched,
}

-- A count of the calls of `create_session`.
pub record Counts (r : SessionsRepo) (calls : r.State → ℕ) : Type 0 where
  pub creates : (x : Session) (s : r.State) → calls (r.create_session x s).1 ≡ suc (calls s)
  pub finds : (k : SessionKey) (s : r.State) → calls (r.find_session k s).1 ≡ calls s
  pub touches :
      (k : SessionKey) (u : String) (e : ℕ) (s : r.State)
      → calls (r.touch_with_event k u e s).1 ≡ calls s
  pub updates : (x : Session) (s : r.State) → calls (r.update_session x s).1 ≡ calls s
  pub fixes : (x : Session) (s : r.State) → calls (r.fix_orphaned_user_session x s).1 ≡ calls s

module _ (r : SessionsRepo) (calls : r.State → ℕ) (counted : Counts r calls) where
  -- What comes after a call that does not count.
  and_then-calls :
      {A : Type 0} (n k : ℕ) (reply : Reply Failure A × r.State) (rest : A → r.State → Login r)
      → calls reply.1 ≡ n
      → ((a : A) (s : r.State) → calls (rest a s).1 ≤ calls s + k)
      → calls (and_then reply rest).1 ≤ n + k
  and_then-calls n k (Reply.ok a, s) rest h bound = omega (arith, bound a s)
  and_then-calls n k (Reply.raised e, s) rest h bound = omega arith

  module _ (session : Session) (rest : Session → r.State → Login r) (k : ℕ)
      (bound : (s : r.State) → calls (rest session s).1 ≤ calls s + k) where
    answer_or-calls :
        (b : Bool) (answer : Session) (s : r.State)
        → calls (answer_or r b answer rest session s).1 ≤ calls s + k
    unfolding answer_or
    answer_or-calls true answer s = omega arith
    answer_or-calls false answer s = bound s

    keep-calls :
        (current : Session) (s : r.State)
        → calls (keep_current r current session rest s).1 ≤ calls s + k
    unfolding keep_current
    keep-calls current s = elim (Bool-cases (ltb session.update_time (current.update_time + 60))) [
      | inl fresh ↦ rw fresh (omega arith)
      | inr old ↦ rw old (
          and_then-calls (calls s) k (touch r current s)
            (λ touched. answer_or r (is_touched touched) current rest session)
            (counted.touches (key_of current) current.user_id current.expiration_seconds s)
            (λ touched. answer_or-calls (is_touched touched) current))
    ]

    replace-calls :
        (current : Session) (s : r.State)
        → calls (replace_current r current session rest s).1 ≤ calls s + k
    unfolding replace_current
    replace-calls current s =
        let session_copy : Session = record session {
          state_counter = current.state_counter;
          session_id = current.session_id;
        } in
        and_then-calls (calls s) k (r.update_session session_copy s)
          (λ updated. answer_or r updated session_copy rest session)
          (counted.updates session_copy s) (λ updated. answer_or-calls updated session_copy)

    remove-calls :
        (existing : String) (s : r.State)
        → calls (remove_orphan r existing session rest s).1 ≤ calls s + k
    unfolding remove_orphan
    remove-calls existing s =
        and_then-calls (calls s) k (fix_orphaned_session r session existing s)
          (λ fixed. rest session) (counted.fixes (record session { session_id = existing }) s)
          (λ fixed. bound)

    choose-calls :
        (current : Session) (should : Option Bool) (s : r.State)
        → calls (replace_or_keep r current session rest should s).1 ≤ calls s + k
    unfolding replace_or_keep
    choose-calls current none s = omega arith
    choose-calls current (some true) s = replace-calls current s
    choose-calls current (some false) s = keep-calls current s

    examine-calls :
        (existing : String) (found : Option Session) (s : r.State)
        → calls (examine_current r existing session rest found s).1 ≤ calls s + k
    unfolding examine_current
    examine-calls existing none s = remove-calls existing s
    examine-calls existing (some current) s =
        elim (Bool-cases (current.status == SessionStatus.failed)) [
          | inl failed ↦ rw failed (remove-calls existing s)
          | inr live ↦ elim (Bool-cases (can_replace_session current session)) [
            | inl can ↦
                rw (live, can) (choose-calls current (should_replace_session current session) s)
            | inr cannot ↦ rw (live, cannot) (omega arith)
          ]
        ]

    check-calls :
        (existing : String) (s : r.State)
        → calls (check_replace_session r session existing rest s).1 ≤ calls s + k
    unfolding check_replace_session
    check-calls existing s =
        let key : SessionKey = record { tenant_id = session.tenant_id; session_id = existing } in
        and_then-calls (calls s) k (r.find_session key s) (examine_current r existing session rest)
          (counted.finds key s) (examine-calls existing)

  after-calls :
      (n k : ℕ) (session : Session) (exists_ : Session → String → r.State → Login r)
      (reply : (ℕ × Reply Failure (Option String)) × r.State)
      → calls reply.1 ≡ n
      → ((same : Session) (existing : String) (s : r.State)
          → calls (exists_ same existing s).1 ≤ calls s + k)
      → calls (after_create r session exists_ reply).1 ≤ n + k
  unfolding after_create
  after-calls n k session exists_ ((expires, Reply.raised e), s) h bound = omega arith
  after-calls n k session exists_ ((expires, Reply.ok none), s) h bound = omega arith
  after-calls n k session exists_ ((expires, Reply.ok (some existing)), s) h bound =
      omega (arith, bound (record session { expiration_time = some expires }) existing s)

  -- A login with `retries` left asks the store at most once more than that to create a session,
  -- where the store's other operations do not count as such a call.
  pub create_session_with_bound :
      (retries : ℕ) (session : Session) (s : r.State)
      → calls (create_session_with r retries session s).1 ≤ calls s + (retries + 1)
  unfolding create_session_with
  create_session_with_bound zero session s = omega (
    arith,
    after-calls (suc (calls s)) 0 session
        (λ same existing s'. (Reply.raised (Failure.user_session_exists existing), s'))
        (r.create_session session s) (counted.creates session s) (λ same existing s'. omega arith),
  )
  create_session_with_bound (suc retries) session s = omega (
    arith,
    after-calls (suc (calls s)) (retries + 1) session
        (λ same existing s'.
          check_replace_session r same existing (create_session_with r retries) s')
        (r.create_session session s) (counted.creates session s)
        (λ same existing s'.
          check-calls same (create_session_with r retries) (retries + 1)
            (create_session_with_bound retries same) existing s'),
  )
