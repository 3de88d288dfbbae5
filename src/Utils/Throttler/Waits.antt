-- ===== src/Utils/Throttler/Waits.antt =====
-- What becomes of an invocation that a throttler was asked for.
use shim_service.Base.{
  ℕ, ◌+◌, ◌≤◌, ◌≡◌, refl, sym, ◌∙◌, Bool, true, false, Option, none, some, List, [], ◌∷◌, arith,
  Bool-cases, Option-cases, inl, inr, if◌then◌else◌, leb, subst,
}
use shim_service.Utils.Throttler.{
  Throttler, Phase, Act, add_invocation, close, notify, wait, look, is_calling, step, call_times,
  run, test,
}
use shim_service.Utils.Throttler.Spacing.{call_times-some, call_times-none}

module _ (d : ℕ) where
  -- A look at the end of a window, or later, calls.
  due-calls :
      (from now : ℕ) (t : Throttler)
      → t.any_waiting ≡ true
      → t.shutdown ≡ false
      → t.start_time ≡ some from
      → from + d ≤ now
      → (look d now t).phase ≡ Phase.calling
  unfolding look
  due-calls from now t busy open_ start due =
      let is_due : leb (from + d) now ≡ true = ground arith in rw (busy, open_, start, is_due) refl

  testing_ne : Phase.calling ≡ Phase.testing → ⊥
  testing_ne e = subst (λ (p : Phase). if is_calling p then Unit else ⊥) e tt

  -- A look that does not call leaves a window, and sleeps until its end.
  look_window :
      (now : ℕ) (t : Throttler)
      → t.any_waiting ≡ true
      → t.shutdown ≡ false
      → (look d now t).phase ≡ Phase.testing
      → (from : ℕ) × ((look d now t).start_time ≡ some from)
        × (from + d ≤ now + (look d now t).sleep_time)
        × ((look d now t).any_waiting ≡ true)
        × ((look d now t).shutdown ≡ false)
        × ((look d now t).started ≡ t.started)
  unfolding look
  look_window now t busy open_ kept = elim (Option-cases t.start_time) [
    | inl fresh ↦ rw (busy, open_, fresh) (now, refl, omega arith, refl, refl, refl)
    | inr (from, e) ↦ elim (Bool-cases (leb (from + d) now)) [
      | inl due ↦
          absurd (testing_ne (sym (due-calls from now t busy open_ e (ground arith)) ∙ kept))
      | inr early ↦ rw (busy, open_, e, early) (from, refl, omega arith, refl, refl, refl)
    ]
  ]

  run-some :
      (a : Act) (acts : List Act) (t t' : Throttler)
      → step d a t ≡ some t'
      → run d (a ∷ acts) t ≡ run d acts t'
  unfolding run
  run-some a acts t t' e = rw (run, e) refl

  abbrev KeepsPhase : Throttler → Option Throttler → Type 0
  KeepsPhase t none = Unit
  KeepsPhase t (some t') = t'.phase ≡ t.phase

  add-KeepsPhase : (t : Throttler) → KeepsPhase t (add_invocation t)
  unfolding add_invocation
  add-KeepsPhase t = elim (Bool-cases t.shutdown) [
    | inl closed ↦ rw closed tt
    | inr open_ ↦ rw open_ refl
  ]

  -- What `close` leaves.
  close_lem :
      (t : Throttler)
      → ((close t).phase ≡ t.phase)
        × ((close t).any_waiting ≡ t.any_waiting)
        × ((close t).started ≡ t.started)
        × ((close t).shutdown ≡ true)
  unfolding close
  close_lem t = elim (Bool-cases t.shutdown) [
    | inl closed ↦ rw closed (refl, refl, refl, refl)
    | inr open_ ↦ rw open_ (refl, refl, refl, refl)
  ]

  -- A throttler that is done calls no more.
  stopped_calls :
      (acts : List Act) (t : Throttler) → t.phase ≡ Phase.stopped → call_times d acts t ≡ []
  unfolding call_times step
  stopped_calls [] t done = refl
  stopped_calls (Act.adds ∷ acts) t done = elim (Option-cases (add_invocation t)) [
    | inl e ↦ call_times-none d Act.adds acts t e
    | inr (t', e) ↦
        call_times-some d Act.adds acts t t' e
        ∙ stopped_calls acts t' (subst (KeepsPhase t) e (add-KeepsPhase t) ∙ done)
  ]
  stopped_calls (Act.closes ∷ acts) t done =
      call_times-some d Act.closes acts t (close t) refl
      ∙ stopped_calls acts (close t) ((close_lem t).0 ∙ done)
  stopped_calls (Act.calls ∷ acts) t done = call_times-none d Act.calls acts t (rw done refl)
  stopped_calls (Act.tests ∷ acts) t done = call_times-none d Act.tests acts t (rw done refl)
  stopped_calls (Act.wakes b ∷ acts) t done = call_times-none d (Act.wakes b) acts t (rw done refl)
  stopped_calls (Act.looks now ∷ acts) t done =
      call_times-none d (Act.looks now) acts t (rw done refl)

  -- An invocation that is asked for while the worker is in a call is lost if the throttler is closed
  -- before the call returns: the worker is then done with the invocation waiting, and never calls.
  pub close_forgets :
      (t : Throttler)
      → t.phase ≡ Phase.calling
      → t.shutdown ≡ false
      → (u : Throttler) × (run d (Act.adds ∷ Act.closes ∷ Act.calls ∷ Act.tests ∷ []) t ≡ some u)
        × (u.any_waiting ≡ true)
        × ((acts : List Act) → call_times d acts u ≡ [])
  unfolding step add_invocation run
  close_forgets t phase open_ =
      let t1 : Throttler = record t {
        any_waiting = true;
        started = true;
        event = notify false t.event;
      } in
      let t2 = close t1 in
      let t3 : Throttler = record t2 { phase = Phase.testing } in
      let (kept, waits_, started, closed) = close_lem t1 in
      let added : step d Act.adds t ≡ some t1 = rw open_ refl in
      let returned : step d Act.calls t2 ≡ some t3 = rw (kept ∙ phase) refl in
      (
        test t3,
        run-some Act.adds (Act.closes ∷ Act.calls ∷ Act.tests ∷ []) t t1 added
            ∙ run-some Act.closes (Act.calls ∷ Act.tests ∷ []) t1 t2 refl
            ∙ run-some Act.calls (Act.tests ∷ []) t2 t3 returned,
        waits_,
        λ acts. stopped_calls acts (test t3) (rw closed refl),
      )

  -- An invocation that the worker finds and does not call for yet is called for when the time that
  -- the worker then sleeps has passed, however its wait ended.
  pub sleep_is_enough :
      (now now' : ℕ) (notified : Bool) (t : Throttler)
      → t.phase ≡ Phase.woken
      → t.started ≡ true
      → t.any_waiting ≡ true
      → t.shutdown ≡ false
      → (look d now t).phase ≡ Phase.testing
      → now + (look d now t).sleep_time ≤ now'
      → (u : Throttler) × (run d
            (Act.looks now ∷ Act.tests ∷ Act.wakes notified ∷ Act.looks now' ∷ [])
            t
          ≡ some u)
        × (u.phase ≡ Phase.calling)
  unfolding step run
  sleep_is_enough now now' notified t phase started busy open_ kept later =
      let (from, start, due, busy', open', started') = look_window now t busy open_ kept in
      let t1 = look d now t in
      let t2 = test t1 in
      let t3 : Throttler = record t2 { event = (wait notified t2.event).1; phase = Phase.woken } in
      let looked : step d (Act.looks now) t ≡ some t1 = rw phase refl in
      let tested : step d Act.tests t1 ≡ some t2 = rw kept refl in
      let woken : step d (Act.wakes notified) t2 ≡ some t3 = rw (open', started', started) refl in
      (
        look d now' t3,
        run-some (Act.looks now) (Act.tests ∷ Act.wakes notified ∷ Act.looks now' ∷ []) t t1 looked
            ∙ run-some Act.tests (Act.wakes notified ∷ Act.looks now' ∷ []) t1 t2 tested
            ∙ run-some (Act.wakes notified) (Act.looks now' ∷ []) t2 t3 woken,
        due-calls from now' t3 busy' open' start (omega arith),
      )
