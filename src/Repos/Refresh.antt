-- ===== src/Repos/Refresh.antt =====
-- python/shim-service/src/repos/resource_lock.py: calls under a lock, and the thread that refreshes
-- a lock until it is released.
use shim_service.Base.{
  ℕ, ◌+◌, ◌≡◌, refl, Bool, true, false, not, ◌&&◌, Option, none, some, List, [], ◌∷◌, if◌then◌else◌,
  arith, Bool-cases, Option-cases, inl, inr, ◌∙◌, sym, subst,
}

-- What a call comes to: its value, or an exception.
pub data Called (A : Type 0) : Type 0 where
  returned : A → Called A
  threw : Called A

module _ {S : Type 0} (release : S → S) where
  -- `execute_and_release_on_exception`
  unfoldable pub release_on_exception : {A : Type 0} → Called A × S → Called A × S
  release_on_exception (Called.returned a, s) = (Called.returned a, s)
  release_on_exception (Called.threw, s) = (Called.threw, release s)

  after_result : Called Bool × S → Called Bool × S
  after_result (Called.returned true, s) = (Called.returned true, s)
  after_result (Called.returned false, s) = (Called.returned false, release s)
  after_result (Called.threw, s) = (Called.threw, s)

  -- `execute_and_release_on_false`
  unfoldable pub release_on_false : Called Bool × S → Called Bool × S
  unfolding release_on_exception after_result
  release_on_false call = after_result (release_on_exception call)

  -- `execute_and_release_on_false` keeps the lock exactly where the call answered true, and else
  -- releases it once.
  release_on_false_lem :
      (answer : Called Bool) (s : S)
      → (answer ≡ Called.returned true → release_on_false (answer, s) ≡ (answer, s))
        × ((answer ≡ Called.returned true → ⊥) → release_on_false (answer, s) ≡ (answer, release s))
  unfolding release_on_false release_on_exception after_result
  release_on_false_lem (Called.returned true) s = ((λ e. refl), λ h. absurd (h refl))
  release_on_false_lem (Called.returned false) s = ((λ e. ground arith), λ h. refl)
  release_on_false_lem Called.threw s = ((λ e. ground arith), λ h. refl)

-- `_AutoRefreshLockImpl`: whether a refresh failed, what the release answered, and the refreshes.
pub record AutoRefreshLock : Type 0 where
  pub failed : Bool
  pub released : Option Bool
  pub refreshes : ℕ

abbrev pub is_open : Option Bool → Bool
is_open none = true
is_open (some answer) = false

-- One turn of `__worker`, after a wait that was not signalled: the source's refresh answers, or
-- raises.
refresh_once : Called Bool → AutoRefreshLock → AutoRefreshLock
refresh_once (Called.returned true) l = record l { refreshes = l.refreshes + 1 }
refresh_once (Called.returned false) l = record l { refreshes = l.refreshes + 1; failed = true }
refresh_once Called.threw l = record l { refreshes = l.refreshes + 1; failed = true }

unfoldable pub turn : Bool → Called Bool → AutoRefreshLock → AutoRefreshLock
unfolding refresh_once
turn signalled source l =
    if not l.failed && (not signalled && is_open l.released) then refresh_once source l else l

-- `release`, what the source's release answers being given.
unfoldable pub release : Bool → AutoRefreshLock → AutoRefreshLock
release answer l = elim l.released [ some before ↦ l | none ↦ record l { released = some answer } ]

unfoldable pub check : AutoRefreshLock → Bool
check l = not l.failed && is_open l.released

pub data Act : Type 0 where
  turns : Bool → Called Bool → Act
  releases : Bool → Act

unfoldable pub acts : List Act → AutoRefreshLock → AutoRefreshLock
unfolding turn release
acts [] l = l
acts (Act.turns signalled source ∷ rest) l = acts rest (turn signalled source l)
acts (Act.releases answer ∷ rest) l = acts rest (release answer l)

turn-check :
    (signalled : Bool) (source : Called Bool) (l : AutoRefreshLock)
    → check l ≡ false
    → turn signalled source l ≡ l
unfolding turn check
turn-check true source l h = elim (Bool-cases l.failed) [
  | inl bad ↦ rw bad refl
  | inr good ↦ rw good refl
]
turn-check false source l h = elim (Bool-cases l.failed) [
  | inl bad ↦ rw bad refl
  | inr good ↦
      let closed : is_open l.released ≡ false = ground (arith, h, good) in rw (good, closed) refl
]

release-check :
    (answer : Bool) (l : AutoRefreshLock)
    → check l ≡ false
    → (check (release answer l) ≡ false) × ((release answer l).refreshes ≡ l.refreshes)
unfolding release check
release-check answer l h = elim (Option-cases l.released) [
  | inl e ↦ rw e (elim (Bool-cases l.failed) [
    | inl bad ↦ rw bad (refl, refl)
    | inr good ↦ rw good (refl, refl)
  ])
  | inr (before, e) ↦ rw (e, release) (h, refl)
]

-- A lock that is not good is not good again and is refreshed no more.
ended-check :
    (as_ : List Act) (l : AutoRefreshLock)
    → check l ≡ false
    → (check (acts as_ l) ≡ false) × ((acts as_ l).refreshes ≡ l.refreshes)
unfolding acts
ended-check [] l h = (h, refl)
ended-check (Act.turns signalled source ∷ as_) l h =
    subst (λ x. (check (acts as_ x) ≡ false) × ((acts as_ x).refreshes ≡ l.refreshes))
      (sym (turn-check signalled source l h)) (ended-check as_ l h)
ended-check (Act.releases answer ∷ as_) l h =
    let (bad, same) = release-check answer l h in
    let (still, kept) = ended-check as_ (release answer l) bad in (still, kept ∙ same)

-- A release, or a turn of the worker whose refresh the source refuses or fails to make.
abbrev pub IsEnding : Act → Type 0
IsEnding (Act.turns signalled source) = (signalled ≡ false) × (source ≡ Called.returned true → ⊥)
IsEnding (Act.releases answer) = Unit

refused-check :
    (source : Called Bool) (l : AutoRefreshLock)
    → (source ≡ Called.returned true → ⊥)
    → check (turn false source l) ≡ false
unfolding turn refresh_once check
refused-check (Called.returned true) l bad = absurd (bad refl)
refused-check (Called.returned false) l bad = ground arith
refused-check Called.threw l bad = ground arith

released-check : (answer : Bool) (l : AutoRefreshLock) → check (release answer l) ≡ false
unfolding release check
released-check answer l = elim (Option-cases l.released) [
  | inl e ↦ rw e (ground arith)
  | inr (before, e) ↦ rw (e, release) (ground (arith, e))
]

-- Once the source has refused or failed to make a refresh, or the lock was released, the lock does
-- not check good again and is refreshed no more, whatever acts follow.
pub acts-check :
    (a : Act) (as_ : List Act) (l : AutoRefreshLock)
    → IsEnding a
    → (check (acts (a ∷ as_) l) ≡ false)
      × ((acts (a ∷ as_) l).refreshes ≡ (acts (a ∷ []) l).refreshes)
unfolding acts
acts-check (Act.turns signalled source) as_ l (go, bad) =
    rw go (ended-check as_ (turn false source l) (refused-check source l bad))
acts-check (Act.releases answer) as_ l ending =
    ended-check as_ (release answer l) (released-check answer l)
