-- ===== src/Repos/Sequence/Races.antt =====
-- Where the sequence repeats a number, and where its lock keeps a caller out.
use shim_service.Base.{
  ℕ, zero, suc, ◌+◌, ◌/◌, ◌<◌, ◌≡◌, refl, ◌∙◌, true, false, Option, none, some, List, arith, lt→ltb,
  ◌++◌, nat_eq, string_eq, pair_eq,
}
use mathlib.Core.List.{flat_map}
use shim_service.Utils.Dates.{get_system_time_in_seconds, get_epoch_seconds_in_future}
use shim_service.Repos.Table.{Table, IsLawful}
use shim_service.Repos.Sequence.{
  Key, Sequence, item, claim, attempt, get_current_sequence, execute, event_numbers,
  execute_with_events, write_events, wrote,
}
use shim_service.Repos.Sequence.Numbers.{
  Shows, Spares, attempt_lem, execute_lem, unlock_lem, get_current_sequence_lem,
}

module _ (t : Table Key Sequence) (L : IsLawful t) (k : Key) where
  -- An attempt that has read an unlocked sequence gets the number that it read, although a whole
  -- `execute` of another process has come before its write and has used that number: the write's
  -- condition is on `timeoutAt` alone, which is 0 again.
  pub attempt_repeats :
      {A : Type 0} (max_lock_seconds millis later v : ℕ) (clock : ℕ → ℕ × ℕ)
      (caller : ℕ → t.State → A × t.State) (s : t.State)
      → Spares t k caller
      → Shows t k s v 0
      → let other = execute t k max_lock_seconds clock (λ i u. u) caller s in
        let mine = attempt t k max_lock_seconds true (millis, later) (λ u. other.1) s in
        ((w : t.State) × (other.0 ≡ some (caller v w).0))
        × (mine.0 ≡ some (item k v (get_epoch_seconds_in_future max_lock_seconds millis false)))
  attempt_repeats max_lock_seconds millis later v clock caller s spares shows =
      let first = execute_lem t L k max_lock_seconds v clock caller s spares shows in
      (
        first.0,
        (attempt_lem t L k max_lock_seconds millis later v (v + 1) 0 _ s shows first.1 refl).0,
      )

  -- While the item shows a lock that has not expired, an attempt fails and leaves the table alone.
  attempt_locked :
      (max_lock_seconds v timeout : ℕ) (times : ℕ × ℕ) (s : t.State)
      → Shows t k s v timeout
      → times.1 / 1000 < timeout
      → attempt t k max_lock_seconds true times (λ u. u) s ≡ (none, s)
  unfolding attempt claim get_system_time_in_seconds
  attempt_locked max_lock_seconds v timeout times s shows locked = rw shows (ground arith)

  -- However often `__get_current_sequence` tries, it fails and changes nothing if each of its
  -- attempts comes before the expiry that the item shows.
  pub get_current_sequence_locked :
      (tries max_lock_seconds v timeout : ℕ) (clock : ℕ → ℕ × ℕ) (s : t.State)
      → Shows t k s v timeout
      → ((i : ℕ) → (clock i).1 / 1000 < timeout)
      → get_current_sequence t tries k max_lock_seconds true clock (λ i u. u) s ≡ (none, s)
  unfolding get_current_sequence
  get_current_sequence_locked zero max_lock_seconds v timeout clock s shows locked =
      attempt_locked max_lock_seconds v timeout (clock zero) s shows (locked zero)
  get_current_sequence_locked (suc tries) max_lock_seconds v timeout clock s shows locked =
      rw
        (attempt_locked max_lock_seconds v timeout (clock (suc tries)) s shows (locked (suc tries)))
        (get_current_sequence_locked tries max_lock_seconds v timeout clock s shows locked)

  write_events_lem :
      {Q : Type 0} (n v next : ℕ) (requests : ℕ → List Q)
      (transact : List Q → t.State → Option Q × t.State) (p : Option Sequence × t.State)
      → ((qs : List Q) → Spares t k (λ m. transact qs))
      → p.0 ≡ some (item k v next)
      → Shows t k p.1 (v + 1) next
      → Shows t k (write_events t p n requests transact).1 (v + 1) 0
  unfolding write_events
  write_events_lem n v next requests transact (none, s) spares e shows = cc
  write_events_lem n v next requests transact (some seq, s) spares e shows =
      let same : seq ≡ item k v next = ground arith in
      rw same (unlock_lem t L k (v + 1) v next _ (spares _ 0 s ∙ shows)).1

  -- The transaction is made, in some state, of the requests for the number after the one taken, and
  -- of others.
  write_events_answer :
      {Q : Type 0} (n v next : ℕ) (requests : ℕ → List Q)
      (transact : List Q → t.State → Option Q × t.State) (p : Option Sequence × t.State)
      → ((qs : List Q) → Spares t k (λ m. transact qs))
      → p.0 ≡ some (item k v next)
      → Shows t k p.1 (v + 1) next
      → (w : t.State) × (rest : List Q) × ((write_events t p (suc n) requests transact).0
          ≡ wrote (transact (requests (v + 1) ++ rest) w).0)
  unfolding write_events event_numbers flat_map
  write_events_answer n v next requests transact (none, s) spares e shows = cc
  write_events_answer {Q = Q} n v next requests transact (some seq, s) spares e shows =
      let same : seq ≡ item k v next = ground arith in
      let rest : List Q = flat_map requests (event_numbers n (v + 1)) in
      let s' = (transact (requests (v + 1) ++ rest) s).1 in
      let released = (unlock_lem t L k (v + 1) v next s' (spares _ 0 s ∙ shows)).0 in
      (s, rest, rw (same, released) refl)

  -- `execute_with_events` for at least one event, on an unlocked sequence that shows `v`, makes its
  -- transaction of the requests for the number `v + 1`, and then of others, but advances the
  -- sequence by one only: the next `execute` gets `v + 1` again.
  pub execute_with_events_repeats :
      {Q : Type 0} (n max_lock_seconds v : ℕ) (clock clock' : ℕ → ℕ × ℕ) (requests : ℕ → List Q)
      (transact : List Q → t.State → Option Q × t.State) (s : t.State)
      → ((qs : List Q) → Spares t k (λ m. transact qs))
      → Shows t k s v 0
      → n < 49
      → let (answer, s') =
          execute_with_events t k (suc n) max_lock_seconds clock (λ i u. u) requests transact s in
        ((w : t.State) × (rest : List Q) × (answer
            ≡ wrote (transact (requests (v + 1) ++ rest) w).0))
        × ((execute t k max_lock_seconds clock' (λ i u. u) (λ m u. (m, u)) s').0 ≡ some (v + 1))
  unfolding execute_with_events
  execute_with_events_repeats n max_lock_seconds v clock clock' requests transact s spares shows
        few =
      let taken = get_current_sequence_lem t L k 19 max_lock_seconds v clock s shows in
      let left =
        write_events_lem (suc n) v _ requests transact
          (get_current_sequence t 19 k max_lock_seconds true clock (λ i u. u) s) spares taken.0
          taken.1 in
      let next =
        execute_lem t L k max_lock_seconds (v + 1) clock' (λ m u. (m, u)) _ (λ m u. refl) left in
      let answered =
        write_events_answer n v _ requests transact
          (get_current_sequence t 19 k max_lock_seconds true clock (λ i u. u) s) spares taken.0
          taken.1 in
      rw (lt→ltb (suc n) 50 (omega arith)) (answered, next.0.1)
