-- ===== src/Repos/Sequence/Views.antt =====
-- What the sequence's own accesses to its table leave as it was.
use shim_service.Base.{
  ℕ, zero, suc, ◌+◌, ◌≡◌, refl, ◌∙◌, Bool, true, false, Option, none, some, arith, nat_eq,
  string_eq, pair_eq, Bool-cases, inl, inr,
}
use shim_service.Utils.Dates.{get_system_time_in_seconds, get_epoch_seconds_in_future}
use shim_service.Repos.Table.{Table, IsLawful}
use shim_service.Repos.Sequence.{
  Key, Sequence, item, locked_at, claim, attempt, unlock, get_current_sequence, execute, again,
  finish,
}
use shim_service.Repos.Sequence.Numbers.{Shows, Spares, get_current_sequence_lem, unlock_lem}

-- A view of the state that creating and patching items of the table does not change.
module _ (t : Table Key Sequence) {V : Type 0} (view : t.State → V)
    (view-put_new : (s : t.State) (k : Key) (q : Sequence) → view (t.put_new s k q).0 ≡ view s)
    (view-update_if : (s : t.State) (k : Key) (p : Sequence → Bool) (f : Sequence → Sequence)
      → view (t.update_if s k p f).0 ≡ view s) where
  view-claim :
      (k : Key) (next_timeout now : ℕ) (auto : Bool) (o : Option Sequence) (s : t.State)
      → view (claim t k next_timeout now auto o s).1 ≡ view s
  unfolding claim
  view-claim (tenant, name) next_timeout now auto none s = view-put_new s _ _
  view-claim (tenant, name) next_timeout now auto (some q) s = elim (Bool-cases (locked_at now q)) [
    | inl locked ↦ rw locked refl
    | inr free ↦ rw free (view-update_if s _ _ _)
  ]

  pub view-unlock : (q : Sequence) (s : t.State) → view (unlock t q s).0 ≡ view s
  unfolding unlock
  view-unlock q s = view-update_if s _ _ _

  view-attempt :
      (k : Key) (max_lock_seconds : ℕ) (auto : Bool) (times : ℕ × ℕ) (s : t.State)
      → view (attempt t k max_lock_seconds auto times (λ u. u) s).1 ≡ view s
  unfolding attempt
  view-attempt k max_lock_seconds auto times s =
      view-claim k (get_epoch_seconds_in_future max_lock_seconds times.0 false)
        (get_system_time_in_seconds times.1) auto (t.get_item s k) s

  view-again :
      (p : Option Sequence × t.State) (rest : t.State → Option Sequence × t.State) (s : t.State)
      → view p.1 ≡ view s
      → ((u : t.State) → view (rest u).1 ≡ view u)
      → view (again t p rest).1 ≡ view s
  unfolding again
  view-again (none, u) rest s e h = h u ∙ e
  view-again (some q, u) rest s e h = e

  pub view-get_current_sequence :
      (tries : ℕ) (k : Key) (max_lock_seconds : ℕ) (auto : Bool) (clock : ℕ → ℕ × ℕ) (s : t.State)
      → view (get_current_sequence t tries k max_lock_seconds auto clock (λ i u. u) s).1 ≡ view s
  unfolding get_current_sequence
  view-get_current_sequence zero k max_lock_seconds auto clock s =
      view-attempt k max_lock_seconds auto (clock zero) s
  view-get_current_sequence (suc tries) k max_lock_seconds auto clock s =
      view-again (attempt t k max_lock_seconds auto (clock (suc tries)) (λ u. u) s)
        (get_current_sequence t tries k max_lock_seconds auto clock (λ i u. u)) s
        (view-attempt k max_lock_seconds auto (clock (suc tries)) s)
        (view-get_current_sequence tries k max_lock_seconds auto clock)

  view-finish :
      {A : Type 0} (k : Key) (v next : ℕ) (caller : ℕ → t.State → A × t.State)
      (p : Option Sequence × t.State)
      → IsLawful t
      → Spares t k caller
      → p.0 ≡ some (item k v next)
      → Shows t k p.1 (v + 1) next
      → ((finish t p caller).0 ≡ some (caller v p.1).0)
        × (view (finish t p caller).1 ≡ view (caller v p.1).1)
  unfolding finish
  view-finish k v next caller (none, s) L spares e shows = cc
  view-finish k v next caller (some seq, s) L spares e shows =
      let same : seq ≡ item k v next = ground arith in
      let done = unlock_lem t L k (v + 1) v next (caller v s).1 (spares v s ∙ shows) in
      (rw (same, done.0), rw same (view-unlock (item k v next) (caller v s).1))

  -- An undisturbed `execute` on an unlocked sequence calls the caller once, with the next number, in
  -- a state of the same view, and answers what it answers; what it leaves is of the view that the
  -- caller leaves.
  pub view-execute :
      {A : Type 0} (k : Key) (max_lock_seconds v : ℕ) (clock : ℕ → ℕ × ℕ)
      (caller : ℕ → t.State → A × t.State) (s : t.State)
      → IsLawful t
      → Spares t k caller
      → Shows t k s v 0
      → let (answer, s') = execute t k max_lock_seconds clock (λ i u. u) caller s in
        (w : t.State) × (view w ≡ view s)
        × (answer ≡ some (caller v w).0)
        × (view s' ≡ view (caller v w).1)
  unfolding execute
  view-execute k max_lock_seconds v clock caller s L spares shows =
      let taken = get_current_sequence_lem t L k 19 max_lock_seconds v clock s shows in
      let ended = view-finish k v _ caller _ L spares taken.0 taken.1 in
      (_, view-get_current_sequence 19 k max_lock_seconds true clock s, ended.0, ended.1)
