-- ===== src/Tests/Polls.antt =====
-- A group of two workers.
use shim_service.Base.{ℕ, ◌+◌, ◌<◌, ◌≡◌, refl, true, false, List, [], ◌∷◌, arith}
use shim_service.Poll.Group.{
  Phase, Group, Locking, Should, Turn, is_full, check_full, add, work, advance, thread_at,
}
use shim_service.Poll.Group.Collect.{
  Page, collect, collect-CollectedAll, CollectedAll, rows_until, others,
}
use shim_service.Poll.Group.Collect.Bounds.{new_group}
use shim_service.Poll.Group.Leaks.{stuck_add}

abbrev starts : Turn
starts = Turn.start Locking.locked Should.poll_it

-- Before each turn of a wait the first thread starts or ends.
abbrev workers : ℕ → List (ℕ × Turn)
workers n = (0, starts) ∷ (0, Turn.finish) ∷ []

abbrev pages : List Page
pages = (1, true) ∷ (1, false) ∷ []

collect-CollectedAll_example :
    CollectedAll 3 workers (0 + rows_until pages) (collect 3 (others 3 workers) pages (new_group 2))
unfolding new_group
collect-CollectedAll_example = collect-CollectedAll 3 workers pages (new_group 2)

-- A group of one place, taken by a thread that has not started.
abbrev last_place : Group
last_place = record {
  max_working_count = 1;
  submit_count = 1;
  working_count = 0;
  threads = Phase.submitted ∷ [];
  invocations = 0;
}

-- That group comes from one that has room.
last_place_run : (add 1 (λ n g. g) (new_group 1)).1 ≡ last_place
unfolding new_group add is_full check_full
last_place_run = refl

abbrev raised : Group
raised =
    advance 0 (Turn.start Locking.locked Should.should_raised) (thread_at 0 last_place.threads)
      last_place

stuck_add_example :
    (raised.working_count < raised.max_working_count)
    × ((add 5 (λ n. work (workers n)) raised).0 ≡ false)
stuck_add_example = stuck_add workers 5 0 last_place refl refl refl (omega arith)
