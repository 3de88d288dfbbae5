-- ===== src/Utils/Cache/Entries.antt =====
-- What the caches answer: live entries, loaded values, and what a cache of values forgets.
use shim_service.Base.{
  ℕ, ◌+◌, ◌≤◌, ◌<◌, ◌≡◌, refl, sym, ap, ◌∙◌, ◌≢◌, ◌⊎◌, inl, inr, Option, none, some, List, [], ◌∷◌,
  arith, ltb, length, if◌then◌else◌, Eq, ◌==◌, Option-cases, Bool-cases,
}
use shim_service.Base.Dict
use shim_service.Base.Dict.{Dict, NodupKeys}
use shim_service.Utils.Cache.{
  Entry, Cache, load, find_entry, store, set, find, get, keep, get_entry, invalidate, clear,
  set_item,
}
use shim_service.Utils.Cache.Eviction.{IsValid, store-IsValid, store_full}

module _ {K V : Type 0} ⦃e : Eq K⦄ where
  -- A stored value is found until its time to live has passed, and from then on not.
  pub find-set :
      (c : Cache K V) (key : K) (value : V) (now later : ℕ)
      → (find (set c key value now) key later).0
        ≡ (if ltb later (now + c.ttl) then some value else none)
  unfolding find set store
  find-set c key value now later = rw (Dict.lookup-insert_self key _ _) (ground arith)

  -- `find` answers the value of an entry that is live; an expired one it removes, and it leaves the
  -- other keys alone.
  pub find_lem :
      (c : Cache K V) (key j : K) (now : ℕ) (entry : Entry V)
      → IsValid c
      → Dict.lookup key c.entries ≡ some entry
      → let (answer, c') = find c key now in
        (answer ≡ (if ltb now entry.expire_at then some entry.value else none))
        × (Dict.lookup j c'.entries ≡ (
            if ltb now entry.expire_at
            then Dict.lookup j c.entries
            else if j == key
            then none
            else Dict.lookup j c.entries))
  unfolding find
  find_lem c key j now entry v found = elim (Bool-cases (ltb now entry.expire_at)) [
    | inl live ↦ rw (found, live) (refl, refl)
    | inr past ↦ elim (Bool-cases (j == key)) [
      | inl same ↦
          rw (found, past, same)
            (refl, rw ((e.beq_iff j key).0 same) (Dict.lookup-erase_self key c.entries v.nodup))
      | inr other ↦ rw (found, past, other) (refl, Dict.lookup-erase_ne j key c.entries other)
    ]
  ]

  invalidate-IsValid : (c : Cache K V) (key : K) → IsValid c → IsValid (invalidate c key).1
  unfolding invalidate
  invalidate-IsValid c key v = record {
    nodup = Dict.erase-NodupKeys key c.entries v.nodup;
    bounded = omega (arith, Dict.length-erase_le key c.entries);
    roomy = v.roomy;
  }

  -- An answer of `get` where no entry is live: what was loaded, which is then found for its time to
  -- live, or nothing, and then nothing changes.
  abbrev pub Loaded : Cache K V → K → ℕ → Option V → Option V × Cache K V → Type 0
  Loaded c key later loaded (answer, c') =
      ((value : V) × (loaded ≡ some value)
        × (answer ≡ some value)
        × ((t : ℕ) → (find c' key t).0 ≡ (if ltb t (later + c.ttl) then some value else none)))
      ⊎ ((loaded ≡ none) × (answer ≡ none) × (c' ≡ c))

  keep-Loaded :
      (c : Cache K V) (key : K) (later : ℕ) (loaded : Option V)
      → Loaded c key later loaded (keep c key later loaded)
  unfolding keep
  keep-Loaded c key later none = inr (refl, refl, refl)
  keep-Loaded c key later (some value) = inl (value, refl, refl, λ t. find-set c key value later t)

  -- `get` answers a live entry and changes nothing; or no entry of the key is live, and it answers
  -- what its loader, else the cache's, gives, which is then found for its time to live; where
  -- nothing is loaded nothing changes.
  get_cases :
      (c : Cache K V) (key : K) (loader : Option (Option V)) (own : Option (K → Option V))
      (now later : ℕ)
      → let result = get c key loader own now later in
        ((entry : Entry V) × (Dict.lookup key c.entries ≡ some entry)
          × (now < entry.expire_at)
          × (result ≡ (some entry.value, c)))
        ⊎ (((entry : Entry V) → Dict.lookup key c.entries ≡ some entry → entry.expire_at ≤ now)
            × Loaded c key later (load key loader own) result)
  unfolding get
  get_cases c key loader own now later = elim (Option-cases (Dict.lookup key c.entries)) [
    | inl e ↦
        inr ((λ entry found. cc), rw (e, get_entry) (keep-Loaded c key later (load key loader own)))
    | inr (entry, found) ↦ elim (Bool-cases (ltb now entry.expire_at)) [
      | inl live ↦ inl (entry, found, ground arith, rw (found, live))
      | inr past ↦ inr (
        (λ other same. ground arith),
        rw (found, past) (keep-Loaded c key later (load key loader own)),
      )
    ]
  ]

  find-IsValid : (c : Cache K V) (key : K) (now : ℕ) → IsValid c → IsValid (find c key now).1
  unfolding find invalidate
  find-IsValid c key now v = elim (Option-cases (Dict.lookup key c.entries)) [
    | inl e ↦ rw (e, find_entry) v
    | inr (entry, found) ↦ elim (Bool-cases (ltb now entry.expire_at)) [
      | inl live ↦ rw (found, live) v
      | inr past ↦ rw (found, past) (invalidate-IsValid c key v)
    ]
  ]

  keep-IsValid :
      (c : Cache K V) (key : K) (later : ℕ) (loaded : Option V)
      → IsValid c
      → IsValid (keep c key later loaded).1
  unfolding keep set
  keep-IsValid c key later none v = v
  keep-IsValid c key later (some value) v = store-IsValid _ c key value later v

  get-IsValid :
      (c : Cache K V) (key : K) (loader : Option (Option V)) (own : Option (K → Option V))
      (now later : ℕ)
      → IsValid c
      → IsValid (get c key loader own now later).1
  unfolding get
  get-IsValid c key loader own now later v = elim (Option-cases (Dict.lookup key c.entries)) [
    | inl e ↦ rw (e, get_entry) (keep-IsValid c key later (load key loader own) v)
    | inr (entry, found) ↦ elim (Bool-cases (ltb now entry.expire_at)) [
      | inl live ↦ rw (found, live) v
      | inr past ↦ rw (found, past) (keep-IsValid c key later (load key loader own) v)
    ]
  ]

  -- `TTLCache` forgets the entry whose value is least, whenever it expires: a new key in a full
  -- cache drives out an entry of strictly least rank, be it the newest.
  set_item_forgets :
      (rank : V → ℕ) (c : Cache K V) (key k : K) (value : V) (entry : Entry V) (now : ℕ)
      → IsValid c
      → Dict.lookup key c.entries ≡ none
      → length c.entries ≡ c.maxsize
      → Dict.lookup k c.entries ≡ some entry
      → ((j : K) (other : Entry V)
          → j ≢ k
          → Dict.lookup j c.entries ≡ some other
          → rank entry.value < rank other.value)
      → Dict.lookup k (set_item rank c key value now).entries ≡ none
  unfolding set_item
  set_item_forgets rank c key k value entry now v new full found least =
      let (out, out_found, out_least, rest) =
        store_full (λ p. rank p.1.value) c key value now v new full in
      let below =
        Dict.All-lookup (λ p. rank out.1.value ≤ rank p.1.value) k c.entries out_least found in
      rest k ∙ elim (Bool-cases (k == key)) [
        | inl same ↦
            let alike = ap (λ (q : K). Dict.lookup q c.entries) ((e.beq_iff k key).0 same) in
            absurd (ground (arith, alike))
        | inr other ↦ elim (Bool-cases (k == out.0)) [
          | inl hit ↦ rw (other, hit)
          | inr miss ↦
              let apart : out.0 ≢ k = λ q. ground (arith, (e.beq_iff k out.0).1 (sym q)) in
              absurd (omega (arith, least out.0 out.1 apart out_found, below))
        ]
      ]

-- The calls of a `ConcurrentTtlCache`, with the clock's readings and what a loader gives.
pub data Call (K V : Type 0) : Type 0 where
  sets : K → V → ℕ → Call K V
  finds : K → ℕ → Call K V
  gets : K → Option (Option V) → ℕ → ℕ → Call K V
  invalidates : K → Call K V
  clears : Call K V

module _ {K V : Type 0} ⦃e : Eq K⦄ (own : Option (K → Option V)) where
  pub apply : Cache K V → Call K V → Cache K V
  apply c (sets key value now) = set c key value now
  apply c (finds key now) = (find c key now).1
  apply c (gets key loader now later) = (get c key loader own now later).1
  apply c (invalidates key) = (invalidate c key).1
  apply c clears = clear c

  unfoldable pub run : Cache K V → List (Call K V) → Cache K V
  unfolding apply
  run c [] = c
  run c (call ∷ calls) = run (apply c call) calls

  apply-IsValid : (c : Cache K V) (call : Call K V) → IsValid c → IsValid (apply c call)
  unfolding apply set clear
  apply-IsValid c (sets key value now) v = store-IsValid _ c key value now v
  apply-IsValid c (finds key now) v = find-IsValid c key now v
  apply-IsValid c (gets key loader now later) v = get-IsValid c key loader own now later v
  apply-IsValid c (invalidates key) v = invalidate-IsValid c key v
  apply-IsValid c clears v = record { nodup = tt; bounded = omega arith; roomy = v.roomy }

  -- No sequence of calls makes the cache larger than its constructor allowed, or repeats a key.
  pub run-IsValid : (c : Cache K V) (calls : List (Call K V)) → IsValid c → IsValid (run c calls)
  unfolding run
  run-IsValid c [] v = v
  run-IsValid c (call ∷ calls) v = run-IsValid (apply c call) calls (apply-IsValid c call v)
