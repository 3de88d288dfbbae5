-- ===== src/Poll/Group/Counts.antt =====
-- The counts of a group of workers, and how many of them poll.
use shim_service.Base.{
  ℕ, zero, suc, ◌+◌, ◌-◌, ◌≤◌, ◌≡◌, refl, Bool, true, false, Option, none, some, List, [], ◌∷◌, eqb,
  ltb, arith, ap, ltb→lt, Bool-cases, inl, inr,
}
use shim_service.Poll.Group.{
  Phase, Group, Locking, Should, Turn, dec_submit_count, inner_worker, check_full, is_full,
  answer_full, add, start_thread, set_thread, thread_at, move_to, advance, work,
}

abbrev pub is_submitted : Phase → ℕ
is_submitted Phase.submitted = 1
is_submitted _ = 0

abbrev pub is_polling : Phase → ℕ
is_polling Phase.polling = 1
is_polling _ = 0

-- How many threads are at a phase.
abbrev pub count : (Phase → ℕ) → List Phase → ℕ
count f [] = 0
count f (p ∷ ps) = f p + count f ps

-- Every submitted worker is counted, every polling one is, and together they are at most the most.
pub record IsValid (g : Group) : Type 0 where
  pub counted_submits : count is_submitted g.threads ≤ g.submit_count
  pub counted_polls : count is_polling g.threads ≤ g.working_count
  pub bounded : g.working_count + g.submit_count ≤ g.max_working_count

at_some : (Phase → ℕ) → Option Phase → ℕ
at_some f none = 0
at_some f (some p) = f p

pub count-set :
    (f : Phase → ℕ) (n : ℕ) (p q : Phase) (ps : List Phase)
    → thread_at n ps ≡ some q
    → count f (set_thread n p ps) + f q ≡ count f ps + f p
unfolding at_some
count-set f n p q [] h = ground arith
count-set f zero p q (x ∷ ps) h = omega (arith, ap (at_some f) h)
count-set f (suc n) p q (x ∷ ps) h = omega (arith, count-set f n p q ps h)

-- The two counts of the threads after one of them has moved.
move-IsValid :
    (n : ℕ) (q p : Phase) (g : Group) (submits polls : ℕ)
    → thread_at n g.threads ≡ some q
    → count is_submitted g.threads + is_submitted p ≤ submits + is_submitted q
    → count is_polling g.threads + is_polling p ≤ polls + is_polling q
    → polls + submits ≤ g.max_working_count
    → (invocations : ℕ)
    → IsValid (record g {
      threads = set_thread n p g.threads;
      submit_count = submits;
      working_count = polls;
      invocations = invocations;
    })
move-IsValid n q p g submits polls at_ h k b i = record {
  counted_submits = omega (arith, count-set is_submitted n p q g.threads at_);
  counted_polls = omega (arith, count-set is_polling n p q g.threads at_);
  bounded = b;
}

-- A thread that is at a phase is counted there.
pub counted :
    (f : Phase → ℕ) (n : ℕ) (q : Phase) (ps : List Phase)
    → thread_at n ps ≡ some q
    → f q ≤ count f ps
unfolding at_some
counted f n q [] h = absurd (ground arith)
counted f zero q (x ∷ ps) h = omega (arith, ap (at_some f) h)
counted f (suc n) q (x ∷ ps) h = omega (arith, counted f n q ps h)

start-IsValid :
    (n : ℕ) (g : Group) (locking : Locking) (should : Should)
    → IsValid g
    → thread_at n g.threads ≡ some Phase.submitted
    → IsValid (move_to n (inner_worker locking should g))
unfolding move_to inner_worker dec_submit_count
start-IsValid n g Locking.refused should v h =
    move-IsValid n Phase.submitted Phase.ended g (g.submit_count - 1) g.working_count h
      (omega (arith, v.counted_submits, counted is_submitted n Phase.submitted g.threads h))
      (omega (arith, v.counted_polls)) (omega (arith, v.bounded)) g.invocations
start-IsValid n g Locking.lock_raised should v h =
    move-IsValid n Phase.submitted Phase.ended g (g.submit_count - 1) g.working_count h
      (omega (arith, v.counted_submits, counted is_submitted n Phase.submitted g.threads h))
      (omega (arith, v.counted_polls)) (omega (arith, v.bounded)) g.invocations
start-IsValid n g Locking.locked Should.skip_it v h =
    move-IsValid n Phase.submitted Phase.ended g (g.submit_count - 1) g.working_count h
      (omega (arith, v.counted_submits, counted is_submitted n Phase.submitted g.threads h))
      (omega (arith, v.counted_polls)) (omega (arith, v.bounded)) (g.invocations + 1)
start-IsValid n g Locking.locked Should.should_raised v h =
    move-IsValid n Phase.submitted Phase.ended g g.submit_count g.working_count h
      (omega (arith, v.counted_submits)) (omega (arith, v.counted_polls)) v.bounded
      (g.invocations + 1)
start-IsValid n g Locking.locked Should.poll_it v h =
    move-IsValid n Phase.submitted Phase.polling g (g.submit_count - 1) (g.working_count + 1) h
      (omega (arith, v.counted_submits, counted is_submitted n Phase.submitted g.threads h))
      (omega (arith, v.counted_polls))
      (omega
        (arith, v.bounded, v.counted_submits, counted is_submitted n Phase.submitted g.threads h))
      g.invocations

advance-IsValid :
    (n : ℕ) (turn : Turn) (at_ : Option Phase) (g : Group)
    → IsValid g
    → thread_at n g.threads ≡ at_
    → IsValid (advance n turn at_ g)
unfolding advance move_to
advance-IsValid n (Turn.start locking should) none g v h = v
advance-IsValid n Turn.finish none g v h = v
advance-IsValid n (Turn.start locking should) (some Phase.ended) g v h = v
advance-IsValid n Turn.finish (some Phase.ended) g v h = v
advance-IsValid n (Turn.start locking should) (some Phase.submitted) g v h =
    start-IsValid n g locking should v h
advance-IsValid n Turn.finish (some Phase.submitted) g v h = v
advance-IsValid n (Turn.start locking should) (some Phase.polling) g v h = v
advance-IsValid n Turn.finish (some Phase.polling) g v h =
    move-IsValid n Phase.polling Phase.ended g g.submit_count g.working_count h
      (omega (arith, v.counted_submits)) (omega (arith, v.counted_polls)) v.bounded
      (g.invocations + 1)

pub work-IsValid : (turns : List (ℕ × Turn)) (g : Group) → IsValid g → IsValid (work turns g)
unfolding work
work-IsValid [] g v = v
work-IsValid ((n, turn) ∷ turns) g v =
    work-IsValid turns (advance n turn (thread_at n g.threads) g)
      (advance-IsValid n turn (thread_at n g.threads) g v refl)

-- A group with room for one thread more that is not started yet.
abbrev Roomy : Bool × Group → Type 0
Roomy (true, g) = IsValid g
Roomy (false, g) = IsValid g × (count is_submitted g.threads + 1 ≤ g.submit_count)

module _ (others : ℕ → Group → Group)
    (kept : (n : ℕ) (g : Group) → IsValid g → IsValid (others n g)) where
  check-Roomy :
      (g : Group) (rest : Group → Bool × Group)
      → IsValid g
      → ((h : Group) → IsValid h → Roomy (rest h))
      → Roomy (answer_full (check_full true g) rest)
  unfolding answer_full check_full
  check-Roomy g rest v next = elim (Bool-cases (eqb g.working_count g.max_working_count)) [
    | inl full ↦ rw full v
    | inr not_full ↦
        elim (Bool-cases (ltb (g.working_count + g.submit_count) g.max_working_count)) [
          | inl room ↦
              rw (not_full, room)
                (
                  record {
                    counted_submits = omega (arith, v.counted_submits);
                    counted_polls = v.counted_polls;
                    bounded =
                        ground (
                          arith,
                          ltb→lt (g.working_count + g.submit_count) g.max_working_count room,
                        );
                  },
                  omega (arith, v.counted_submits),
                )
          | inr no_room ↦ rw (not_full, no_room) (next g v)
        ]
  ]

  is_full-Roomy : (turns : ℕ) (g : Group) → IsValid g → Roomy (is_full turns true others g)
  unfolding is_full
  is_full-Roomy zero g v = v
  is_full-Roomy (suc turns) g v =
      check-Roomy (others turns g) (is_full turns true others) (kept turns g v)
        (is_full-Roomy turns)

  started : (answer : Bool × Group) → Roomy answer → IsValid (start_thread answer).1
  unfolding start_thread
  started (true, g) v = v
  started (false, g) (v, room) = record {
    counted_submits = omega (arith, room);
    counted_polls = omega (arith, v.counted_polls);
    bounded = v.bounded;
  }

  pub add-IsValid : (turns : ℕ) (g : Group) → IsValid g → IsValid (add turns others g).1
  unfolding add
  add-IsValid turns g v = started (is_full turns true others g) (is_full-Roomy turns g v)
