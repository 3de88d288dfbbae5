-- ===== src/Utils/Cache.antt =====
-- python/shim-service/src/utils/concurrent_cache.py and cache.py: dicts of entries that expire. A
-- method takes the clock's readings; the mutexes make it one step. Values are present, not `None`.
pub mod Eviction
pub mod Entries
use shim_service.Base.{
  ℕ, zero, suc, ◌+◌, Bool, true, false, ◌&&◌, Option, none, some, List, [], ◌∷◌, eqb, leb, ltb,
  length, if◌then◌else◌, Eq,
}
use shim_service.Base.Dict
use shim_service.Base.Dict.{Dict}

pub record Entry (V : Type 0) : Type 0 where
  pub value : V
  pub expire_at : ℕ

pub record Cache (K V : Type 0) : Type 0 where
  pub maxsize : ℕ
  pub ttl : ℕ
  pub entries : Dict K (Entry V)

-- `min(items, key=f)`: the first of the least ones, from the best so far.
unfoldable pub min_from {ℓ} : {A : Type ℓ} → (A → ℕ) → A → List A → A
min_from f best [] = best
min_from f best (x ∷ xs) = min_from f (if ltb (f x) (f best) then x else best) xs

abbrev pub absent {ℓ} : {A : Type ℓ} → Option A → Bool
absent none = true
absent (some a) = false

abbrev pub value_of : {V : Type 0} → Option (Entry V) → Option V
value_of none = none
value_of (some entry) = some entry.value

module _ {K V : Type 0} ⦃e : Eq K⦄ where
  -- The entry of least weight is deleted.
  unfoldable pub evict : (K × Entry V → ℕ) → Dict K (Entry V) → Dict K (Entry V)
  unfolding min_from Dict.erase
  evict weight [] = []
  evict weight (x ∷ xs) = Dict.erase (min_from weight x xs).0 (x ∷ xs)

  -- Room is made only for a new key, in a full cache.
  unfoldable pub store : (K × Entry V → ℕ) → Cache K V → K → V → ℕ → Cache K V
  unfolding evict Dict.insert Dict.lookup
  store weight c key value now =
      let full = absent (Dict.lookup key c.entries) && eqb (length c.entries) c.maxsize in
      let room = if full then evict weight c.entries else c.entries in
      record c {
        entries = Dict.insert key (record { value = value; expire_at = now + c.ttl }) room;
      }

  -- `ConcurrentTtlCache.__set` deletes the entry that expires first.
  unfoldable pub set : Cache K V → K → V → ℕ → Cache K V
  unfolding store
  set = store λ p. p.1.expire_at

  find_entry : Cache K V → K → ℕ → Option (Entry V) → Option V × Cache K V
  unfolding Dict.erase
  find_entry c key now none = (none, c)
  find_entry c key now (some current) =
      if ltb now current.expire_at
      then (some current.value, c)
      else (none, record c { entries = Dict.erase key c.entries })

  -- `find`: an expired entry is dropped.
  unfoldable pub find : Cache K V → K → ℕ → Option V × Cache K V
  unfolding find_entry Dict.lookup
  find c key now = find_entry c key now (Dict.lookup key c.entries)

  -- `__load`: the call's loader, else the cache's, else nothing.
  abbrev pub load : K → Option (Option V) → Option (K → Option V) → Option V
  load key (some loaded) own = loaded
  load key none (some loader) = loader key
  load key none none = none

  keep : Cache K V → K → ℕ → Option V → Option V × Cache K V
  unfolding set
  keep c key later none = (none, c)
  keep c key later (some value) = (some value, set c key value later)

  get_entry : Cache K V → K → Option V → ℕ → ℕ → Option (Entry V) → Option V × Cache K V
  unfolding keep
  get_entry c key loaded now later none = keep c key later loaded
  get_entry c key loaded now later (some current) =
      if ltb now current.expire_at then (some current.value, c) else keep c key later loaded

  -- `get`, with what `__load` returns if it is called; the clock is read again for the new entry.
  unfoldable pub get :
      Cache K V → K → Option (Option V) → Option (K → Option V) → ℕ → ℕ → Option V × Cache K V
  unfolding get_entry Dict.lookup
  get c key loader own now later =
      get_entry c key (load key loader own) now later (Dict.lookup key c.entries)

  -- `invalidate`: the value that was removed, which the action is called with.
  unfoldable pub invalidate : Cache K V → K → Option V × Cache K V
  unfolding Dict.lookup Dict.erase
  invalidate c key =
      (value_of (Dict.lookup key c.entries), record c { entries = Dict.erase key c.entries })

  unfoldable pub clear : Cache K V → Cache K V
  clear c = record c { entries = [] }

  -- `TTLCache` of cache.py keeps pairs of the expiry and the value. Its `__setitem__` chooses by
  -- `v[1][1]`, which is the value; `rank` stands for the order of the values.
  unfoldable pub set_item : (V → ℕ) → Cache K V → K → V → ℕ → Cache K V
  unfolding store
  set_item rank = store λ p. rank p.1.value

  load_item : (V → ℕ) → Cache K V → K → Option V → ℕ → Option V × Cache K V
  unfolding set_item
  load_item rank c key none later = (none, c)
  load_item rank c key (some value) later = (some value, set_item rank c key value later)

  get_item_entry :
      (V → ℕ) → Cache K V → K → Option V → ℕ → ℕ → Option (Entry V) → Option V × Cache K V
  unfolding load_item Dict.erase
  get_item_entry rank c key loaded now later none = load_item rank c key loaded later
  get_item_entry rank c key loaded now later (some v) =
      if ltb v.expire_at now
      then load_item rank (record c { entries = Dict.erase key c.entries }) key loaded later
      else (some v.value, c)

  -- `TTLCache.get`, with what its loader returns if it is called.
  unfoldable pub get_item : (V → ℕ) → Cache K V → K → Option V → ℕ → ℕ → Option V × Cache K V
  unfolding get_item_entry Dict.lookup
  get_item rank c key loaded now later =
      get_item_entry rank c key loaded now later (Dict.lookup key c.entries)
