-- ===== src/Utils/Throttler/Spacing.antt =====
-- How far apart the calls of a throttler are.
use shim_service.Base.{
  ℕ, ◌+◌, ◌≤◌, ◌≡◌, refl, sym, ◌∙◌, Bool, true, false, Option, none, some, List, [], ◌∷◌, arith,
  Bool-cases, Option-cases, inl, inr, if◌then◌else◌, leb, subst, ap,
}
use shim_service.Utils.Throttler.{
  Throttler, Phase, Act, new_throttler, add_invocation, look, work, step, is_calling, called_at,
  and_call, call_times,
}

-- The looks' times do not go back.
abbrev pub Forward : ℕ → List Act → Type 0
Forward latest [] = Unit
Forward latest (Act.looks now ∷ acts) = (latest ≤ now) × Forward now acts
Forward latest (Act.adds ∷ acts) = Forward latest acts
Forward latest (Act.closes ∷ acts) = Forward latest acts
Forward latest (Act.calls ∷ acts) = Forward latest acts
Forward latest (Act.tests ∷ acts) = Forward latest acts
Forward latest (Act.wakes b ∷ acts) = Forward latest acts

abbrev pub IsOpen : List Act → Type 0
IsOpen [] = Unit
IsOpen (Act.closes ∷ acts) = ⊥
IsOpen (Act.adds ∷ acts) = IsOpen acts
IsOpen (Act.calls ∷ acts) = IsOpen acts
IsOpen (Act.tests ∷ acts) = IsOpen acts
IsOpen (Act.wakes b ∷ acts) = IsOpen acts
IsOpen (Act.looks now ∷ acts) = IsOpen acts

abbrev pub Apart : ℕ → ℕ → List ℕ → Type 0
Apart d last [] = Unit
Apart d last (now ∷ times) = (last + d ≤ now) × Apart d now times

abbrev After : ℕ → Option ℕ → Type 0
After last none = Unit
After last (some start) = last ≤ start

module _ (d : ℕ) where
  -- What a look leaves.
  data Looked (last now : ℕ) (t : Throttler) : Type 0 where
    called : t.phase ≡ Phase.calling → t.start_time ≡ none → last + d ≤ now → Looked last now t
    waits : t.phase ≡ Phase.testing → After last t.start_time → Looked last now t

  since : {last now : ℕ} (start : ℕ) → last ≤ start → leb (start + d) now ≡ true → last + d ≤ now
  since start after due = ground arith

  look-Looked :
      (last latest now : ℕ) (t : Throttler)
      → t.shutdown ≡ false
      → After last t.start_time
      → last ≤ latest
      → latest ≤ now
      → Looked last now (look d now t) × ((look d now t).shutdown ≡ false)
  unfolding look
  look-Looked last latest now t open_ after p q = elim (Bool-cases t.any_waiting) [
    | inr idle ↦ rw idle (waits refl after, open_)
    | inl busy ↦ elim (Option-cases t.start_time) [
      | inl fresh ↦ rw (busy, open_, fresh) (waits refl (omega arith), refl)
      | inr (start, e) ↦ elim (Bool-cases (leb (start + d) now)) [
        | inl due ↦
            rw (busy, open_, e, due)
              (called refl refl (since start (subst (After last) e after) due), refl)
        | inr early ↦ rw (busy, open_, e, early) (waits refl (subst (After last) e after), refl)
      ]
    ]
  ]

  look_of :
      (p : Phase) (now : ℕ) (t t' : Throttler)
      → work d p (Act.looks now) t ≡ some t'
      → t' ≡ look d now t
  look_of Phase.woken now t t' e = cc e
  look_of p now t t' e = cc e

  abbrev IsSame : Throttler → Throttler → Type 0
  IsSame t t' = (t'.shutdown ≡ t.shutdown) × (t'.start_time ≡ t.start_time)

  abbrev AllSame : Throttler → Option Throttler → Type 0
  AllSame t none = Unit
  AllSame t (some t') = IsSame t t'

  add-AllSame : (t : Throttler) → AllSame t (add_invocation t)
  unfolding add_invocation
  add-AllSame t = elim (Bool-cases t.shutdown) [
    | inl closed ↦ rw closed tt
    | inr open_ ↦ rw open_ (refl, refl)
  ]

  wake-AllSame : (p : Phase) (b : Bool) (t : Throttler) → AllSame t (work d p (Act.wakes b) t)
  wake-AllSame Phase.waiting b t = elim (Bool-cases t.started) [
    | inl on ↦ rw on (refl, refl)
    | inr off ↦ rw off tt
  ]
  wake-AllSame p b t = tt

  call-AllSame : (p : Phase) (t : Throttler) → AllSame t (work d p Act.calls t)
  call-AllSame Phase.calling t = (refl, refl)
  call-AllSame p t = tt

  test-AllSame : (p : Phase) (t : Throttler) → AllSame t (work d p Act.tests t)
  test-AllSame Phase.testing t = (refl, refl)
  test-AllSame p t = tt

  -- The state before a step of a run, after the last call at `last` and the last look at `latest`.
  record IsSpaced (last latest : ℕ) (t : Throttler) : Type 0 where
    is_open : t.shutdown ≡ false
    window : After last t.start_time
    order : last ≤ latest

  same-IsSpaced :
      {last latest : ℕ} {t t' : Throttler}
      → IsSpaced last latest t
      → IsSame t t'
      → IsSpaced last latest t'
  same-IsSpaced {last} spaced (x, y) = record {
    is_open = x ∙ spaced.is_open;
    window = subst (After last) (sym y) spaced.window;
    order = spaced.order;
  }

  pub call_times-some :
      (a : Act) (acts : List Act) (t t' : Throttler)
      → step d a t ≡ some t'
      → call_times d (a ∷ acts) t ≡ and_call (called_at a t') (call_times d acts t')
  unfolding call_times
  call_times-some a acts t t' e = rw (call_times, e) refl

  pub call_times-none :
      (a : Act) (acts : List Act) (t : Throttler)
      → step d a t ≡ none
      → call_times d (a ∷ acts) t ≡ []
  unfolding call_times
  call_times-none a acts t e = rw (call_times, e) refl

  -- A step that does not look, and then the rest.
  rest-Apart :
      (a : Act) (acts : List Act) (last latest : ℕ) (t : Throttler)
      → ((t' : Throttler) → called_at a t' ≡ none)
      → AllSame t (step d a t)
      → ((t' : Throttler) → IsSpaced last latest t' → Apart d last (call_times d acts t'))
      → IsSpaced last latest t
      → Apart d last (call_times d (a ∷ acts) t)
  rest-Apart a acts last latest t silent same later spaced = elim (Option-cases (step d a t)) [
    | inl e ↦ rw (call_times-none a acts t e) tt
    | inr (t', e) ↦
        rw (call_times-some a acts t t' e, silent t')
          (later t' (same-IsSpaced spaced (subst (AllSame t) e same)))
  ]

  decided :
      (now : ℕ) (t : Throttler) (p : Phase)
      → t.phase ≡ p
      → called_at (Act.looks now) t ≡ (if is_calling p then some now else none)
  decided now t p e = rw e refl

  -- A look, and then the rest.
  Looked-Apart :
      (now : ℕ) (acts : List Act) (last : ℕ) (t : Throttler)
      → Looked last now t
      → t.shutdown ≡ false
      → last ≤ now
      → ((latest : ℕ) → IsSpaced latest now t → Apart d latest (call_times d acts t))
      → Apart d last (and_call (called_at (Act.looks now) t) (call_times d acts t))
  Looked-Apart now acts last t (called phase start enough) open_ order later =
      subst (λ (x : Option ℕ). Apart d last (and_call x (call_times d acts t)))
        (sym (decided now t Phase.calling phase))
        (
          enough,
          later now (record {
            is_open = open_;
            window = subst (After now) (sym start) tt;
            order = omega arith;
          }),
        )
  Looked-Apart now acts last t (waits phase window) open_ order later =
      subst (λ (x : Option ℕ). Apart d last (and_call x (call_times d acts t)))
        (sym (decided now t Phase.testing phase))
        (later last (record { is_open = open_; window = window; order = order }))

  times-Apart :
      (acts : List Act) (last latest : ℕ) (t : Throttler)
      → Forward latest acts
      → IsOpen acts
      → IsSpaced last latest t
      → Apart d last (call_times d acts t)
  unfolding step call_times
  times-Apart [] last latest t forward open_ spaced = tt
  times-Apart (Act.adds ∷ acts) last latest t forward open_ spaced =
      rest-Apart Act.adds acts last latest t (λ t'. refl) (add-AllSame t)
        (λ t'. times-Apart acts last latest t' forward open_) spaced
  times-Apart (Act.closes ∷ acts) last latest t forward open_ spaced = absurd open_
  times-Apart (Act.calls ∷ acts) last latest t forward open_ spaced =
      rest-Apart Act.calls acts last latest t (λ t'. refl) (call-AllSame t.phase t)
        (λ t'. times-Apart acts last latest t' forward open_) spaced
  times-Apart (Act.tests ∷ acts) last latest t forward open_ spaced =
      rest-Apart Act.tests acts last latest t (λ t'. refl) (test-AllSame t.phase t)
        (λ t'. times-Apart acts last latest t' forward open_) spaced
  times-Apart (Act.wakes b ∷ acts) last latest t forward open_ spaced =
      rest-Apart (Act.wakes b) acts last latest t (λ t'. refl) (wake-AllSame t.phase b t)
        (λ t'. times-Apart acts last latest t' forward open_) spaced
  times-Apart (Act.looks now ∷ acts) last latest t (later, forward) open_ spaced =
      elim (Option-cases (work d t.phase (Act.looks now) t)) [
        | inl e ↦ rw (call_times-none (Act.looks now) acts t e) tt
        | inr (t', e) ↦
            let is_look = look_of t.phase now t t' e in
            let (looked, still) =
              look-Looked last latest now t spaced.is_open spaced.window spaced.order later in
            let order = spaced.order in
            rw (call_times-some (Act.looks now) acts t t' e) (
              Looked-Apart now acts last t' (subst (Looked last now) (sym is_look) looked)
                (ap (λ (u : Throttler). u.shutdown) is_look ∙ still) (omega arith)
                (λ l. times-Apart acts l now t' forward open_))
      ]

  -- As long as a throttler is not closed, and the clock does not go back, its first call comes at
  -- least its time after the start and each other at least its time after the one before, whatever
  -- other threads ask for and whenever the worker wakes.
  pub call_times-Apart :
      (acts : List Act) (from : ℕ)
      → Forward from acts
      → IsOpen acts
      → Apart d from (call_times d acts new_throttler)
  call_times-Apart acts from forward open_ =
      times-Apart acts from from new_throttler forward open_
        (record { is_open = refl; window = tt; order = omega arith })
