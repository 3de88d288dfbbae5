-- ===== src/Repos/Lock.antt =====
-- python/shim-service/src/repos/aws/aws_resource_lock.py: named locks with an expiry, one item of a
-- table to a lock. The table's accesses of an attempt stand apart, as other processes may come
-- between any two of them.
pub mod Attempts
pub mod World
use shim_service.Base.{
  ℕ, zero, suc, String, Bool, true, false, Option, none, some, leb, if◌then◌else◌, nat_eq,
}
use shim_service.Utils.Dates.{get_system_time_in_seconds, get_epoch_seconds_in_future}
use shim_service.Repos.Table.{
  Table, Attribute, create, find, patch_with_condition, delete_with_condition,
}

pub record LocalDto : Type 0 where
  pub resource_name : String
  pub timeout_at : ℕ

abbrev pub expire_at : Attribute LocalDto ℕ
expire_at = record { get = λ r. r.timeout_at; set = λ v r. record r { timeout_at = v } }

abbrev pub key_of : LocalDto → String
key_of dto = dto.resource_name

pub record Lock : Type 0 where
  pub name : String
  pub timeout_at : ℕ
  pub refresh_seconds : ℕ
  pub release_result : Option Bool

-- Where an attempt of `try_acquire` stands: before each of its accesses to the table, and its
-- outcomes. `lost` is the `OptimisticLockException`, after which the decorator tries again.
pub data Attempt : Type 0 where
  creating reading recreating : ℕ → LocalDto → Attempt
  patching : ℕ → LocalDto → LocalDto → Attempt
  acquired : LocalDto → Attempt
  refused lost : Attempt

abbrev pub request : String → ℕ → ℕ → LocalDto
request name expire_seconds later = record {
  resource_name = name;
  timeout_at = get_epoch_seconds_in_future expire_seconds later false;
}

-- The clock is read twice, before the first access. `none` is the failed assertion.
unfoldable pub start : String → ℕ → ℕ → ℕ → Option Attempt
start name expire_seconds millis later =
    if leb 1 expire_seconds
    then if leb expire_seconds 879
      then some (creating (get_system_time_in_seconds millis) (request name expire_seconds later))
      else none
    else none

-- The lock that an attempt ends with.
abbrev pub to_lock : LocalDto → ℕ → Lock
to_lock dto expire_seconds = record {
  name = dto.resource_name;
  timeout_at = dto.timeout_at;
  refresh_seconds = expire_seconds;
  release_result = none;
}

-- What `try_acquire` returns or raises.
pub data Outcome : Type 0 where
  locked : Lock → Outcome
  unavailable optimistic_lock assertion : Outcome

abbrev pub outcome : ℕ → Attempt → Outcome
outcome secs (acquired dto) = locked (to_lock dto secs)
outcome secs lost = optimistic_lock
outcome secs _ = unavailable

module _ (t : Table String LocalDto) where
  -- After `find`.
  unfoldable pub examine : ℕ → LocalDto → Option LocalDto → Attempt
  examine now dto none = recreating now dto
  examine now dto (some current) =
      if leb now current.timeout_at then refused else patching now dto current

  -- One access to the table, and the tests up to the next one.
  unfoldable pub advance : Attempt → t.State → Attempt × t.State
  advance (creating now dto) s =
      let (s', ok) = create t key_of dto s in (if ok then acquired dto else reading now dto, s')
  advance (reading now dto) s = (examine now dto (find t key_of dto.resource_name s), s)
  advance (recreating now dto) s =
      let (s', ok) = create t key_of dto s in (if ok then acquired dto else refused, s')
  advance (patching now dto current) s =
      let (s', ok) = patch_with_condition t key_of expire_at current dto.timeout_at (λ r. r) s in
      (if ok then acquired dto else lost, s')
  advance (acquired dto) s = (acquired dto, s)
  advance refused s = (refused, s)
  advance lost s = (lost, s)

  -- `__releaser`
  unfoldable pub releaser : Lock → t.State → Bool × t.State
  releaser lock s =
      let dto : LocalDto = record { resource_name = lock.name; timeout_at = lock.timeout_at } in
      let (s', ok) = delete_with_condition t key_of expire_at dto dto.timeout_at s in (ok, s')

  -- `_LockImpl.release`: a second call repeats the first answer.
  unfoldable pub release : Lock → t.State → Bool × Lock × t.State
  unfolding releaser
  release lock s = elim lock.release_result [
    | some answer ↦ (answer, lock, s)
    | none ↦ let (ok, s') = releaser lock s in (ok, record lock { release_result = some ok }, s')
  ]

  abbrev pub dto_of : Lock → LocalDto
  dto_of lock = record { resource_name = lock.name; timeout_at = lock.timeout_at }

  -- The lock after an access of `__refresher`: the caller's object is changed where it succeeded.
  abbrev pub refreshed : Lock → ℕ → Bool → Lock
  refreshed lock target_time ok = if ok then record lock { timeout_at = target_time } else lock

  -- The two accesses of `__refresher`.
  unfoldable pub refresh_patch : Lock → ℕ → t.State → Bool × Lock × t.State
  refresh_patch lock target_time s =
      let (s', ok) = patch_with_condition t key_of expire_at (dto_of lock) target_time (λ r. r) s in
      (ok, refreshed lock target_time ok, s')

  unfoldable pub refresh_create : Lock → ℕ → t.State → Bool × Lock × t.State
  refresh_create lock target_time s =
      let (s', made) = create t key_of (dto_of lock) s in
      (made, refreshed lock target_time made, s')

  -- `__refresher`; other processes may come between its two accesses, as `others`.
  unfoldable pub refresher : Lock → ℕ → (t.State → t.State) → t.State → Bool × Lock × t.State
  unfolding refresh_patch refresh_create
  refresher lock target_time others s =
      let (ok, patched, s') = refresh_patch lock target_time s in
      let second = refresh_create lock target_time (others s') in
      if ok then (true, patched, s') else second

  -- The time that `__refresher` sets, `millis` the clock; `none` is the failed assertion of
  -- `refresh`.
  abbrev pub refresh_target : Lock → ℕ → Option ℕ
  refresh_target lock millis = elim lock.release_result [
    | some answer ↦ none
    | none ↦ some (get_epoch_seconds_in_future lock.refresh_seconds millis false)
  ]

  -- `_LockImpl.refresh`, `millis` the clock; `none` is the failed assertion.
  unfoldable pub refresh : Lock → ℕ → (t.State → t.State) → t.State → Option (Bool × Lock × t.State)
  unfolding refresher
  refresh lock millis others s = elim (refresh_target lock millis) [
    | none ↦ none
    | some target_time ↦ some (refresher lock target_time others s)
  ]

  -- An attempt makes at most four accesses; `others` is what other processes do before each.
  unfoldable pub accesses : ℕ → (ℕ → t.State → t.State) → Attempt → t.State → Attempt × t.State
  unfolding advance examine
  accesses zero others a s = (a, s)
  accesses (suc n) others a s = let (a', s') = advance a (others n s) in accesses n others a' s'

  try_once : String → ℕ → (ℕ → ℕ) → (ℕ → t.State → t.State) → t.State → Outcome × t.State
  unfolding accesses
  try_once name expire_seconds clock others s =
      elim (start name expire_seconds (clock 0) (clock 1)) [
        | none ↦ (assertion, s)
        | some a ↦ let (a', s') = accesses 4 others a s in (outcome expire_seconds a', s')
      ]

  again : Outcome × t.State → (t.State → Outcome × t.State) → Outcome × t.State
  again (optimistic_lock, s) rest = rest s
  again (locked l, s) rest = (locked l, s)
  again (unavailable, s) rest = (unavailable, s)
  again (assertion, s) rest = (assertion, s)

  -- `try_acquire` under its `retry` decorator: `tries` more attempts follow a lost one. The clock
  -- and the other processes are given for each attempt.
  unfoldable pub try_acquire :
      ℕ → String → ℕ → (ℕ → ℕ → ℕ) → (ℕ → ℕ → t.State → t.State) → t.State → Outcome × t.State
  unfolding try_once again start
  try_acquire zero name expire_seconds clock others s =
      try_once name expire_seconds (clock zero) (others zero) s
  try_acquire (suc tries) name expire_seconds clock others s =
      let rest = try_acquire tries name expire_seconds clock others in
      again (try_once name expire_seconds (clock (suc tries)) (others (suc tries)) s) rest
