-- ===== src/Repos/Sequence/Numbers.antt =====
-- The numbers that undisturbed calls hand out, and the sequence's lock.
use shim_service.Base.{
  ℕ, zero, suc, ◌+◌, ◌/◌, ◌≡◌, refl, ◌∙◌, Bool, true, false, Option, none, some, List, [], ◌∷◌,
  arith, beq_refl, nat_eq, string_eq, pair_eq,
}
use shim_service.Utils.Dates.{get_system_time_in_seconds, get_epoch_seconds_in_future}
use shim_service.Repos.Table.{Table, IsLawful}
use shim_service.Repos.Sequence.{
  Key, Sequence, item, locked_at, claim, attempt, unlock, get_current_sequence, execute, again,
  finish,
}

module _ (t : Table Key Sequence) (k : Key) where
  -- The item under the key shows the next number and the expiry of its lock.
  abbrev pub Shows : t.State → ℕ → ℕ → Type 0
  Shows s next timeout = t.get_item s k ≡ some (item k next timeout)

  -- A caller that leaves the sequence's item alone, as every caller of `execute` does.
  abbrev pub Spares : {A : Type 0} → (ℕ → t.State → A × t.State) → Type 0
  Spares caller = (n : ℕ) (s : t.State) → t.get_item (caller n s).1 k ≡ t.get_item s k

module _ (t : Table Key Sequence) (L : IsLawful t) (k : Key) where
  -- Taking the number: the claim succeeds wherever the item still shows the expiry that was read,
  -- even if its number has changed since.
  pub claim_lem :
      (next_timeout now v u timeout : ℕ) (s : t.State)
      → Shows t k s u timeout
      → locked_at now (item k v timeout) ≡ false
      → let (seq, s') = claim t k next_timeout now true (some (item k v timeout)) s in
        (seq ≡ some (item k v next_timeout)) × Shows t k s' (v + 1) next_timeout
  unfolding claim
  claim_lem next_timeout now v u timeout s shows free =
      let matches : Sequence → Bool = λ q. nat_eq.beq q.timeout_at timeout in
      let write : Sequence → Sequence =
        λ q. record q { next_value = v + 1; timeout_at = next_timeout } in
      ground (
        arith,
        L.update_if_ok s k matches write,
        L.get-update_if s k matches write k,
        beq_refl ⦃e = pair_eq⦄ k,
      )

  pub unlock_lem :
      (u v timeout : ℕ) (s : t.State)
      → Shows t k s u timeout
      → let (s', ok) = unlock t (item k v timeout) s in (ok ≡ true) × Shows t k s' u 0
  unfolding unlock
  unlock_lem u v timeout s shows =
      let matches : Sequence → Bool = λ q. nat_eq.beq q.timeout_at timeout in
      let write : Sequence → Sequence = λ q. record q { timeout_at = 0 } in
      ground (
        arith,
        L.update_if_ok s k matches write,
        L.get-update_if s k matches write k,
        beq_refl ⦃e = pair_eq⦄ k,
      )

  -- An undisturbed attempt, `others` leaving the item's expiry alone.
  pub attempt_lem :
      (max_lock_seconds millis later v u timeout : ℕ) (others : t.State → t.State) (s : t.State)
      → Shows t k s v timeout
      → Shows t k (others s) u timeout
      → locked_at (later / 1000) (item k v timeout) ≡ false
      → let next_timeout = get_epoch_seconds_in_future max_lock_seconds millis false in
        let (seq, s') = attempt t k max_lock_seconds true (millis, later) others s in
        (seq ≡ some (item k v next_timeout)) × Shows t k s' (v + 1) next_timeout
  unfolding attempt get_system_time_in_seconds
  attempt_lem max_lock_seconds millis later v u timeout others s read written free =
      rw read (claim_lem _ (later / 1000) v u timeout (others s) written free)

  again-some :
      (p : Option Sequence × t.State) (rest : t.State → Option Sequence × t.State) {q : Sequence}
      → p.0 ≡ some q
      → again t p rest ≡ p
  unfolding again
  again-some (some q, s) rest e = refl
  again-some (none, s) rest e = cc

  -- The first attempt of `__get_current_sequence` succeeds on an unlocked sequence.
  pub get_current_sequence_lem :
      (tries max_lock_seconds v : ℕ) (clock : ℕ → ℕ × ℕ) (s : t.State)
      → Shows t k s v 0
      → let next = get_epoch_seconds_in_future max_lock_seconds (clock tries).0 false in
        let (seq, s') = get_current_sequence t tries k max_lock_seconds true clock (λ i u. u) s in
        (seq ≡ some (item k v next)) × Shows t k s' (v + 1) next
  unfolding get_current_sequence
  get_current_sequence_lem zero max_lock_seconds v clock s shows =
      attempt_lem max_lock_seconds (clock zero).0 (clock zero).1 v v 0 (λ u. u) s shows shows refl
  get_current_sequence_lem (suc tries) max_lock_seconds v clock s shows =
      let taken =
        attempt_lem max_lock_seconds (clock (suc tries)).0 (clock (suc tries)).1 v v 0 (λ u. u) s
          shows shows refl in
      rw (again-some (attempt t k max_lock_seconds true (clock (suc tries)) (λ u. u) s) _ taken.0)
        taken

  finish_lem :
      {A : Type 0} (v next : ℕ) (caller : ℕ → t.State → A × t.State) (p : Option Sequence × t.State)
      → Spares t k caller
      → p.0 ≡ some (item k v next)
      → Shows t k p.1 (v + 1) next
      → (w : t.State) × ((finish t p caller).0 ≡ some (caller v w).0)
        × Shows t k (finish t p caller).1 (v + 1) 0
  unfolding finish
  finish_lem v next caller (none, s) spares e shows = cc
  finish_lem v next caller (some seq, s) spares e shows =
      let same : seq ≡ item k v next = ground arith in
      let done = unlock_lem (v + 1) v next (caller v s).1 (spares v s ∙ shows) in
      (s, rw (same, done.0), rw same done.1)

  -- An undisturbed `execute` on an unlocked sequence passes its next number to the caller, answers
  -- what the caller answers, advances the number by one and leaves the sequence unlocked.
  pub execute_lem :
      {A : Type 0} (max_lock_seconds v : ℕ) (clock : ℕ → ℕ × ℕ) (caller : ℕ → t.State → A × t.State)
      (s : t.State)
      → Spares t k caller
      → Shows t k s v 0
      → let (answer, s') = execute t k max_lock_seconds clock (λ i u. u) caller s in
        ((w : t.State) × (answer ≡ some (caller v w).0)) × Shows t k s' (v + 1) 0
  unfolding execute
  execute_lem max_lock_seconds v clock caller s spares shows =
      let taken = get_current_sequence_lem 19 max_lock_seconds v clock s shows in
      let ended = finish_lem v _ caller _ spares taken.0 taken.1 in ((ended.0, ended.1), ended.2)

  -- A run of calls, each answering with its number.
  abbrev pub numbers : ℕ → ℕ → (ℕ → ℕ × ℕ) → t.State → List (Option ℕ)
  numbers zero max_lock_seconds clock s = []
  numbers (suc n) max_lock_seconds clock s =
      let (answer, s') = execute t k max_lock_seconds clock (λ i u. u) (λ v u. (v, u)) s in
      answer ∷ numbers n max_lock_seconds clock s'

  abbrev pub consecutive : ℕ → ℕ → List (Option ℕ)
  consecutive zero v = []
  consecutive (suc n) v = some v ∷ consecutive n (v + 1)

  -- Calls of `execute` that do not overlap hand out consecutive numbers from the one shown.
  pub numbers-consecutive :
      (n max_lock_seconds v : ℕ) (clock : ℕ → ℕ × ℕ) (s : t.State)
      → Shows t k s v 0
      → numbers n max_lock_seconds clock s ≡ consecutive n v
  numbers-consecutive zero max_lock_seconds v clock s shows = refl
  numbers-consecutive (suc n) max_lock_seconds v clock s shows =
      let one = execute_lem max_lock_seconds v clock (λ v u. (v, u)) s (λ m u. refl) shows in
      rw (one.0.1, numbers-consecutive n max_lock_seconds (v + 1) clock _ one.1)
