-- ===== src/Repos/Sequence.antt =====
-- python/shim-service/src/repos/aws/aws_sequence.py: numbers handed out one at a time, one item of
-- a table to a sequence. The item is locked by its `timeoutAt` while a number is in use.
pub mod Numbers
pub mod Races
pub mod Views
use shim_service.Base.{
  ℕ, zero, suc, ◌+◌, String, Bool, true, false, ◌&&◌, Option, none, some, List, [], ◌∷◌, ◌++◌, leb,
  ltb, if◌then◌else◌, nat_eq, string_eq, pair_eq,
}
use mathlib.Core.List.{flat_map}
use shim_service.Utils.Dates.{get_system_time_in_seconds, get_epoch_seconds_in_future}
use shim_service.Repos.Table.{Table, Attribute, create, find, patch_with_condition}

abbrev pub Key : Type 0
Key = ℕ × String

pub record Sequence : Type 0 where
  pub tenant_id : ℕ
  pub name : String
  pub next_value : ℕ
  pub timeout_at : ℕ

abbrev pub key_of : Sequence → Key
key_of q = (q.tenant_id, q.name)

abbrev pub timeout_attribute : Attribute Sequence ℕ
timeout_attribute = record { get = λ q. q.timeout_at; set = λ v q. record q { timeout_at = v } }

-- The item of a sequence.
abbrev pub item : Key → ℕ → ℕ → Sequence
item (tenant, name) next_value timeout_at = record {
  tenant_id = tenant;
  name = name;
  next_value = next_value;
  timeout_at = timeout_at;
}

abbrev pub locked_at : ℕ → Sequence → Bool
locked_at now q = ltb 0 q.timeout_at && ltb now q.timeout_at

module _ (t : Table Key Sequence) where
  -- `__get_current_sequence` after its read: `none` is the `OptimisticLockException`.
  unfoldable pub claim : Key → ℕ → ℕ → Bool → Option Sequence → t.State → Option Sequence × t.State
  claim (tenant, name) next_timeout now auto none s =
      let fresh : Sequence = record {
        tenant_id = tenant;
        name = name;
        next_value = 2;
        timeout_at = next_timeout;
      } in
      let (s', ok) = create t key_of fresh s in
      (if ok then some (record fresh { next_value = if auto then 1 else 0 }) else none, s')
  claim (tenant, name) next_timeout now auto (some current) s =
      let patches : Sequence → Sequence =
        λ q. if auto then record q { next_value = current.next_value + 1 } else q in
      let (s', ok) =
        patch_with_condition t key_of timeout_attribute current next_timeout patches s in
      let seq : Sequence = record {
        tenant_id = tenant;
        name = name;
        next_value = current.next_value;
        timeout_at = next_timeout;
      } in
      if locked_at now current then (none, s) else (if ok then some seq else none, s')

  -- One attempt with its two readings of the clock, `others` being what other processes do between
  -- its two accesses.
  unfoldable pub attempt :
      Key → ℕ → Bool → ℕ × ℕ → (t.State → t.State) → t.State → Option Sequence × t.State
  unfolding claim
  attempt key max_lock_seconds auto (millis, later) others s =
      claim key (get_epoch_seconds_in_future max_lock_seconds millis false)
        (get_system_time_in_seconds later) auto (find t key_of key s) (others s)

  -- The release of the lock that the `finally` blocks make; false is the `OptimisticLockException`.
  unfoldable pub unlock : Sequence → t.State → t.State × Bool
  unlock seq s = patch_with_condition t key_of timeout_attribute seq 0 (λ q. q) s

  again :
      Option Sequence × t.State → (t.State → Option Sequence × t.State) → Option Sequence × t.State
  again (some q, s) rest = (some q, s)
  again (none, s) rest = rest s

  -- `__get_current_sequence` under its decorator, `tries` more attempts after a lost one.
  unfoldable pub get_current_sequence :
      ℕ
      → Key
      → ℕ
      → Bool
      → (ℕ → ℕ × ℕ)
      → (ℕ → t.State → t.State)
      → t.State
      → Option Sequence × t.State
  unfolding again
  get_current_sequence zero key max_lock_seconds auto clock others s =
      attempt key max_lock_seconds auto (clock zero) (others zero) s
  get_current_sequence (suc tries) key max_lock_seconds auto clock others s =
      let rest = get_current_sequence tries key max_lock_seconds auto clock others in
      again (attempt key max_lock_seconds auto (clock (suc tries)) (others (suc tries)) s) rest

  -- The caller's part of `execute`: its answer, and what it does to the rest of the database, of
  -- which only this table is seen here. `none` is the exception of the release or of the claim.
  finish :
      {A : Type 0} → Option Sequence × t.State → (ℕ → t.State → A × t.State) → Option A × t.State
  unfolding unlock
  finish (none, s) caller = (none, s)
  finish (some seq, s) caller =
      let (answer, s') = caller seq.next_value s in
      let (s'', ok) = unlock seq s' in (if ok then some answer else none, s'')

  -- `execute`; the decorator allows twenty attempts.
  unfoldable pub execute :
      {A : Type 0}
      → Key
      → ℕ
      → (ℕ → ℕ × ℕ)
      → (ℕ → t.State → t.State)
      → (ℕ → t.State → A × t.State)
      → t.State
      → Option A × t.State
  unfolding finish
  execute key max_lock_seconds clock others caller s =
      finish (get_current_sequence 19 key max_lock_seconds true clock others s) caller

-- The numbers that `execute_with_events` gives to its events, `n` of them after `original`.
unfoldable pub event_numbers : ℕ → ℕ → List ℕ
event_numbers zero original = []
event_numbers (suc n) original = (original + 1) ∷ event_numbers n (original + 1)

-- The answer of `execute_with_events`: the failed assertion, an exception of the sequence, or the
-- request that failed.
pub data EventsOutcome (Q : Type 0) : Type 0 where
  too_many lock_lost : EventsOutcome Q
  wrote : Option Q → EventsOutcome Q

module _ (t : Table Key Sequence) {Q : Type 0} where
  -- The `finally` block restores `next_value` in memory only: the patch names `timeoutAt` alone.
  write_events :
      Option Sequence × t.State
      → ℕ
      → (ℕ → List Q)
      → (List Q → t.State → Option Q × t.State)
      → EventsOutcome Q × t.State
  unfolding unlock event_numbers
  write_events (none, s) n requests transact = (lock_lost, s)
  write_events (some seq, s) n requests transact =
      let (bad, s') = transact (flat_map requests (event_numbers n seq.next_value)) s in
      let (s'', ok) = unlock t seq s' in (if ok then wrote bad else lock_lost, s'')

  -- `execute_with_events`: `requests k` is the pair of requests for the event numbered `k`.
  unfoldable pub execute_with_events :
      Key
      → ℕ
      → ℕ
      → (ℕ → ℕ × ℕ)
      → (ℕ → t.State → t.State)
      → (ℕ → List Q)
      → (List Q → t.State → Option Q × t.State)
      → t.State
      → EventsOutcome Q × t.State
  unfolding write_events
  execute_with_events key num_requests max_lock_seconds clock others requests transact s =
      if ltb num_requests 50
      then write_events (get_current_sequence t 19 key max_lock_seconds true clock others s)
          num_requests requests transact
      else (too_many, s)
