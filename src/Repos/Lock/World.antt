-- ===== src/Repos/Lock/World.antt =====
-- Processes that take, refresh and release locks, each access to the table a step of its own: those
-- of an attempt, the two of a refresh, and the one of a release.
pub mod Frame
pub mod Accesses
pub mod Holdings
pub mod Exclusion
use shim_service.Base.{
  ℕ, ◌+◌, ◌/◌, ◌≤◌, ◌<◌, ◌≡◌, refl, sym, ◌∙◌, ◌≢◌, ◌⊎◌, inl, inr, String, Bool, true, false, ◌&&◌,
  Option, none, some, List, [], ◌∷◌, arith, eqb, beq_refl, Option-cases, Bool-cases, ◌==◌, Eq,
  if◌then◌else◌, string_eq, nat_eq, eqb_iff, subst, ap,
}
use shim_service.Utils.Dates.{get_system_time_in_seconds, get_epoch_seconds_in_future}
use shim_service.Repos.Table.{Table, IsLawful, is_none, holds, on_item}
use shim_service.Repos.Lock.{
  LocalDto, Lock, Attempt, creating, reading, recreating, patching, acquired, refused, lost, start,
  advance, examine, release, releaser, refresh_patch, refresh_create, refresh_target, to_lock,
}
use shim_service.Repos.Lock.Attempts.{expiry, IsKeyed}

-- A process is idle, in an attempt for so many seconds, or holds a lock.
pub data Process : Type 0 where
  idle : Process
  trying : ℕ → Attempt → Process
  holding : Lock → Process

-- An attempt that is over.
abbrev pub settle : ℕ → Attempt → Process
settle secs (acquired dto) = holding (to_lock dto secs)
settle secs refused = idle
settle secs lost = idle
settle secs (creating now dto) = trying secs (creating now dto)
settle secs (reading now dto) = trying secs (reading now dto)
settle secs (recreating now dto) = trying secs (recreating now dto)
settle secs (patching now dto current) = trying secs (patching now dto current)

pub data Move : Type 0 where
  tick : ℕ → Move
  begin : ℕ → String → ℕ → ℕ → Move
  access refreshes releases : ℕ → Move

pub record World (t : Table String LocalDto) : Type 0 where
  pub clock : ℕ
  pub table : t.State
  pub process : ℕ → Process
  -- The time that a process is to set whose refresh has made its first access in vain.
  pub pending : ℕ → Option ℕ

abbrev pub update : (ℕ → Process) → ℕ → Process → ℕ → Process
update f i p j = if eqb j i then p else f j

abbrev pub update_pending : (ℕ → Option ℕ) → ℕ → Option ℕ → ℕ → Option ℕ
update_pending f i p j = if eqb j i then p else f j

module _ (t : Table String LocalDto) where
  abbrev pub set_process : World t → ℕ → Process → t.State → World t
  set_process w i p s = record w { table = s; process = update w.process i p }

  abbrev pub set_pending : World t → ℕ → Option ℕ → World t
  set_pending w i p = record w { pending = update_pending w.pending i p }

  begin_from : World t → ℕ → Process → String → ℕ → ℕ → World t
  begin_from w i idle name secs later = elim (start name secs w.clock later) [
    | none ↦ w
    | some a ↦ set_process w i (trying secs a) w.table
  ]
  begin_from w i (trying n a) name secs later = w
  begin_from w i (holding lock) name secs later = w

  -- The second access of a refresh.
  pub retry_from : World t → ℕ → Lock → Option ℕ → World t
  retry_from w i lock none = w
  retry_from w i lock (some target_time) =
      let (made, lock', s') = refresh_create t lock target_time w.table in
      set_pending (set_process w i (holding lock') s') i none

  -- The next access of an attempt, or of a refresh.
  pub access_from : World t → ℕ → Process → World t
  unfolding retry_from
  access_from w i (trying secs a) =
      let (a', s') = advance t a w.table in set_process w i (settle secs a') s'
  access_from w i idle = w
  access_from w i (holding lock) = retry_from w i lock (w.pending i)

  -- The first access of a refresh, at the time to be set.
  pub patch_from : World t → ℕ → Lock → Option ℕ → World t
  patch_from w i lock none = w
  patch_from w i lock (some target_time) =
      let (ok, lock', s') = refresh_patch t lock target_time w.table in
      set_pending (set_process w i (holding lock') s') i (if ok then none else some target_time)

  -- A process whose refresh is under way starts no other and does not release its lock, as the mutex
  -- of `_AutoRefreshLockImpl` sees to.
  pub refresh_from : World t → ℕ → Process → World t
  unfolding patch_from
  refresh_from w i (holding lock) = elim (w.pending i) [
    | none ↦ patch_from w i lock (refresh_target t lock w.clock)
    | some target_time ↦ w
  ]
  refresh_from w i idle = w
  refresh_from w i (trying secs a) = w

  pub release_from : World t → ℕ → Process → World t
  release_from w i (holding lock) =
      let (ok, lock', s') = release t lock w.table in
      elim (w.pending i) [ none ↦ set_process w i idle s' | some target_time ↦ w ]
  release_from w i idle = w
  release_from w i (trying secs a) = w

  -- A move that does not fit the process changes nothing.
  unfoldable pub step : World t → Move → World t
  unfolding begin_from access_from refresh_from release_from
  step w (tick d) = record w { clock = w.clock + d }
  step w (begin i name secs later) = begin_from w i (w.process i) name secs later
  step w (access i) = access_from w i (w.process i)
  step w (refreshes i) = refresh_from w i (w.process i)
  step w (releases i) = release_from w i (w.process i)

  unfoldable pub run : World t → List Move → World t
  unfolding step
  run w [] = w
  run w (m ∷ ms) = run (step w m) ms

  abbrev pub seconds : World t → ℕ
  seconds w = w.clock / 1000

  -- That no two processes hold one lock at once, each within its term; one whose refresh is under
  -- way holds its lock as it was.
  abbrev pub Exclusive : World t → Type 0
  Exclusive w =
      (i j : ℕ) (l k : Lock)
      → w.process i ≡ holding l
      → w.process j ≡ holding k
      → l.name ≡ k.name
      → seconds w ≤ l.timeout_at
      → seconds w ≤ k.timeout_at
      → i ≡ j
