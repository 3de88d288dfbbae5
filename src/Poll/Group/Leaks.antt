-- ===== src/Poll/Group/Leaks.antt =====
-- What becomes of a group when `should_poll` raises: the submission stays counted.
use shim_service.Base.{
  ℕ, zero, suc, ◌+◌, ◌<◌, ◌≡◌, refl, true, false, Option, none, some, List, [], ◌∷◌, eqb, ltb,
  arith, Bool-cases, inl, inr,
}
use shim_service.Poll.Group.{
  Phase, Group, Locking, Should, Turn, inner_worker, check_full, is_full, answer_full, add,
  start_thread, thread_at, move_to, advance, work,
}
use shim_service.Poll.Group.Counts.{count, is_submitted, count-set, counted}

-- Every place is counted, though no thread is still submitted.
record IsStuck (g : Group) : Type 0 where
  pub none_submitted : count is_submitted g.threads ≡ 0
  pub all_counted : g.working_count + g.submit_count ≡ g.max_working_count

-- The thread that takes the last place, whose `should_poll` raises.
leak-IsStuck :
    (n : ℕ) (g : Group)
    → thread_at n g.threads ≡ some Phase.submitted
    → count is_submitted g.threads ≡ 1
    → g.working_count + g.submit_count ≡ g.max_working_count
    → IsStuck (advance n (Turn.start Locking.locked Should.should_raised) (thread_at n g.threads) g)
unfolding advance move_to inner_worker
leak-IsStuck n g at_ one all_ = rw at_ (record {
  none_submitted =
      omega (arith, count-set is_submitted n Phase.ended Phase.submitted g.threads at_, one);
  all_counted = all_;
})

advance-IsStuck :
    (n : ℕ) (turn : Turn) (at_ : Option Phase) (g : Group)
    → IsStuck g
    → thread_at n g.threads ≡ at_
    → IsStuck (advance n turn at_ g)
unfolding advance move_to
advance-IsStuck n (Turn.start l s) none g v h = v
advance-IsStuck n Turn.finish none g v h = v
advance-IsStuck n (Turn.start l s) (some Phase.ended) g v h = v
advance-IsStuck n Turn.finish (some Phase.ended) g v h = v
advance-IsStuck n (Turn.start l s) (some Phase.submitted) g v h =
    absurd (omega (arith, counted is_submitted n Phase.submitted g.threads h, v.none_submitted))
advance-IsStuck n Turn.finish (some Phase.submitted) g v h = v
advance-IsStuck n (Turn.start l s) (some Phase.polling) g v h = v
advance-IsStuck n Turn.finish (some Phase.polling) g v h = record {
  none_submitted =
      omega
        (arith, count-set is_submitted n Phase.ended Phase.polling g.threads h, v.none_submitted);
  all_counted = v.all_counted;
}

work-IsStuck : (turns : List (ℕ × Turn)) (g : Group) → IsStuck g → IsStuck (work turns g)
unfolding work
work-IsStuck [] g v = v
work-IsStuck ((n, turn) ∷ turns) g v =
    work-IsStuck turns (advance n turn (thread_at n g.threads) g)
      (advance-IsStuck n turn (thread_at n g.threads) g v refl)

module _ (workers : ℕ → List (ℕ × Turn)) where
  abbrev others : ℕ → Group → Group
  others n g = work (workers n) g

  stuck_full : (turns : ℕ) (g : Group) → IsStuck g → (is_full turns true others g).0 ≡ true
  unfolding is_full check_full answer_full
  stuck_full zero g v = refl
  stuck_full (suc turns) g v =
      let w = work-IsStuck (workers turns) g v in
      let h = work (workers turns) g in
      elim (Bool-cases (eqb h.working_count h.max_working_count)) [
        | inl full ↦ rw full refl
        | inr room ↦ rw (room, no_room h w) (stuck_full turns h w)
      ]
    where
      no_room :
          (h : Group)
          → IsStuck h
          → ltb (h.working_count + h.submit_count) h.max_working_count ≡ false
      no_room h w = ground (arith, w.all_counted)

  stuck_refuses : (turns : ℕ) (g : Group) → IsStuck g → (add turns others g).0 ≡ false
  unfolding add start_thread
  stuck_refuses turns g v = rw (stuck_full turns g v) refl

  -- Where a group's one submitted thread takes its last place, though not every place is counted as
  -- working, and that thread's `should_poll` raises: its place is still not counted as working, but
  -- the group adds no event more, whatever its workers do and however long the caller waits.
  pub stuck_add :
      (turns n : ℕ) (g : Group)
      → thread_at n g.threads ≡ some Phase.submitted
      → count is_submitted g.threads ≡ 1
      → g.working_count + g.submit_count ≡ g.max_working_count
      → g.working_count < g.max_working_count
      → let raise = Turn.start Locking.locked Should.should_raised in
        let after = advance n raise (thread_at n g.threads) g in
        (after.working_count < after.max_working_count) × ((add turns others after).0 ≡ false)
  unfolding advance move_to inner_worker
  stuck_add turns n g at_ one all_ room =
      (rw at_ room, stuck_refuses turns _ (leak-IsStuck n g at_ one all_))
