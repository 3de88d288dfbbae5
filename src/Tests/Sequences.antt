-- ===== src/Tests/Sequences.antt =====
-- Sequences in a table in memory.
use shim_service.Base.{
  ℕ, ◌≡◌, refl, true, Option, none, some, List, [], ◌∷◌, string_eq, nat_eq, pair_eq, arith, ◌++◌,
}
use shim_service.Utils.Dates.{get_epoch_seconds_in_future}
use shim_service.Repos.Table.{Table, memory_table, memory_table-IsLawful}
use shim_service.Repos.Sequence.{
  Key, Sequence, item, attempt, get_current_sequence, execute, execute_with_events, EventsOutcome,
  wrote,
}
use shim_service.Repos.Sequence.Numbers.{numbers, consecutive, numbers-consecutive}
use shim_service.Repos.Sequence.Races.{
  attempt_repeats, get_current_sequence_locked, execute_with_events_repeats,
}

abbrev sequences : Table Key Sequence
sequences = memory_table

abbrev key : Key
key = (1, "Sequence")

-- The sequence shows its next number and its expiry.
abbrev showing : ℕ → ℕ → Key → Option Sequence
showing next timeout k = some (item key next timeout)

numbers-consecutive_example :
    numbers sequences memory_table-IsLawful key 3 10 (λ i. (5000, 5000)) (showing 7 0)
    ≡ consecutive sequences memory_table-IsLawful key 3 7
numbers-consecutive_example =
    numbers-consecutive sequences memory_table-IsLawful key 3 10 7 (λ i. (5000, 5000)) (showing 7 0)
      refl

get_current_sequence_locked_example :
    get_current_sequence sequences 2 key 10 true (λ i. (5000, 5000)) (λ i u. u) (showing 7 9)
    ≡ (none, showing 7 9)
get_current_sequence_locked_example =
    get_current_sequence_locked sequences memory_table-IsLawful key 2 10 7 9 (λ i. (5000, 5000))
      (showing 7 9) refl (λ i. ground arith)

attempt_repeats_example :
    (attempt sequences key 10 true
      (5000, 6000)
      (λ u.
        (execute sequences key 10 (λ i. (5000, 5000)) (λ i u. u) (λ m u. (m, u)) (showing 7 0)).1)
      (showing 7 0)).0
    ≡ some (item key 7 15)
unfolding get_epoch_seconds_in_future
attempt_repeats_example =
    (attempt_repeats sequences memory_table-IsLawful key 10 5000 6000 7 (λ i. (5000, 5000))
      (λ m u. (m, u)) (showing 7 0) (λ m u. refl) refl).1

abbrev no_requests : ℕ → List ℕ
no_requests k = k ∷ []

abbrev always : List ℕ → (Key → Option Sequence) → Option ℕ × (Key → Option Sequence)
always qs s = (none, s)

-- Three events, from a sequence that shows 7.
abbrev ran : EventsOutcome ℕ × sequences.State
ran =
    execute_with_events sequences key 3 10 (λ i. (5000, 5000)) (λ i u. u) no_requests always
      (showing 7 0)

execute_with_events_repeats_example :
    ((w : sequences.State) × (rest : List ℕ) × (ran.0 ≡ wrote (always (no_requests 8 ++ rest) w).0))
    × ((execute sequences key 10 (λ i. (5000, 5000)) (λ i u. u) (λ m u. (m, u)) ran.1).0 ≡ some 8)
execute_with_events_repeats_example =
    execute_with_events_repeats sequences memory_table-IsLawful key 2 10 7 (λ i. (5000, 5000))
      (λ i. (5000, 5000)) no_requests always (showing 7 0) (λ qs m u. refl) refl (ground arith)
