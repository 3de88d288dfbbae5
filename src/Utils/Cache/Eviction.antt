-- ===== src/Utils/Cache/Eviction.antt =====
-- Which entry makes room, and the bound on the number of entries.
use shim_service.Base.{
  ℕ, suc, ◌+◌, ◌≤◌, ◌<◌, ◌≡◌, refl, ap, inl, inr, ◌≢◌, ◌⊎◌, ◌∙◌, true, false, none, some, List, [],
  ◌∷◌, arith, eqb, ltb, length, All, if◌then◌else◌, Eq, ◌==◌, Option-cases, Bool-cases,
}
use shim_service.Base.Dict
use shim_service.Base.Dict.{Dict, NodupKeys}
use shim_service.Utils.Cache.{Entry, Cache, min_from, evict, store}

module _ {ℓ} {A : Type ℓ} (f : A → ℕ) where
  min_from-le : (best : A) (xs : List A) → f (min_from f best xs) ≤ f best
  unfolding min_from
  min_from-le best [] = omega arith
  min_from-le best (x ∷ xs) = ground (arith, min_from-le best xs, min_from-le x xs)

  min_from-least :
      (n : ℕ) (best : A) (xs : List A) → n ≤ f (min_from f best xs) → All (λ x. n ≤ f x) xs
  unfolding min_from
  min_from-least n best [] h = tt
  min_from-least n best (x ∷ xs) h = elim (Bool-cases (ltb (f x) (f best))) [
    | inl less ↦
        let h' : n ≤ f (min_from f x xs) = rw less at h in
        (omega (arith, min_from-le x xs), min_from-least n x xs h')
    | inr more ↦
        let h' : n ≤ f (min_from f best xs) = rw more at h in
        (ground (arith, min_from-le best xs), min_from-least n best xs h')
  ]

  min_from-All {κ} :
      (P : A → Type κ) (best : A) (xs : List A) → P best → All P xs → P (min_from f best xs)
  unfolding min_from
  min_from-All P best [] b h = b
  min_from-All P best (x ∷ xs) b h = elim (Bool-cases (ltb (f x) (f best))) [
    | inl less ↦ rw less (min_from-All P x xs h.0 h.1)
    | inr more ↦ rw more (min_from-All P best xs b h.1)
  ]

module _ {K V : Type 0} ⦃e : Eq K⦄ where
  -- No key twice, and no more entries than the constructor allowed (at least two).
  pub record IsValid (c : Cache K V) : Type 0 where
    pub nodup : NodupKeys c.entries
    pub bounded : length c.entries ≤ c.maxsize
    pub roomy : 1 < c.maxsize

  module _ (weight : K × Entry V → ℕ) where
    victim-lookup :
        (x : K × Entry V) (xs : Dict K (Entry V))
        → NodupKeys (x ∷ xs)
        → let v = min_from weight x xs in Dict.lookup v.0 (x ∷ xs) ≡ some v.1
    victim-lookup x xs u =
        let found = Dict.NodupKeys-lookup (x ∷ xs) u in
        min_from-All weight (λ p. Dict.lookup p.0 (x ∷ xs) ≡ some p.1) x xs found.0 found.1

    length-evict :
        (d : Dict K (Entry V)) → NodupKeys d → d ≢ [] → suc (length (evict weight d)) ≡ length d
    unfolding evict
    length-evict [] u h = absurd (h refl)
    length-evict (x ∷ xs) u h =
        Dict.length-erase (min_from weight x xs).0 (x ∷ xs) (victim-lookup x xs u)

    evict-NodupKeys : (d : Dict K (Entry V)) → NodupKeys d → NodupKeys (evict weight d)
    unfolding evict
    evict-NodupKeys [] u = tt
    evict-NodupKeys (x ∷ xs) u = Dict.erase-NodupKeys (min_from weight x xs).0 (x ∷ xs) u

    lookup-evict-none :
        (k : K) (d : Dict K (Entry V))
        → NodupKeys d
        → Dict.lookup k d ≡ none
        → Dict.lookup k (evict weight d) ≡ none
    unfolding evict
    lookup-evict-none k [] u h = h
    lookup-evict-none k (x ∷ xs) u h = elim (Bool-cases (k == (min_from weight x xs).0)) [
      | inl same ↦
          rw ((e.beq_iff k (min_from weight x xs).0).0 same) (Dict.lookup-erase_self _ (x ∷ xs) u)
      | inr other ↦ Dict.lookup-erase_ne k _ (x ∷ xs) other ∙ h
    ]

    nonempty :
        (c : Cache K V) → IsValid c → eqb (length c.entries) c.maxsize ≡ true → c.entries ≢ []
    nonempty c v full q = ground (arith, ap length q)

    -- What makes room: an entry of least weight, and no other.
    evict_lem :
        (d : Dict K (Entry V))
        → NodupKeys d
        → d ≢ []
        → (v : K × Entry V) × (Dict.lookup v.0 d ≡ some v.1)
          × All (λ p. weight v ≤ weight p) d
          × ((j : K)
              → Dict.lookup j (evict weight d) ≡ (if j == v.0 then none else Dict.lookup j d))
    unfolding evict
    evict_lem [] u h = absurd (h refl)
    evict_lem (x ∷ xs) u h =
        let v = min_from weight x xs in
        (
          v,
          victim-lookup x xs u,
          (min_from-le weight x xs, min_from-least weight (weight v) x xs (omega arith)),
          λ j. elim (Bool-cases (j == v.0)) [
            | inl same ↦
                rw same (rw ((e.beq_iff j v.0).0 same) (Dict.lookup-erase_self v.0 (x ∷ xs) u))
            | inr other ↦ rw other (Dict.lookup-erase_ne j v.0 (x ∷ xs) other)
          ],
        )

    pub store-IsValid :
        (c : Cache K V) (key : K) (value : V) (now : ℕ)
        → IsValid c
        → IsValid (store weight c key value now)
    unfolding store
    store-IsValid c key value now v = elim (Option-cases (Dict.lookup key c.entries)) [
      | inr (old, found) ↦ rw found (record {
        nodup = Dict.insert-NodupKeys key _ c.entries v.nodup;
        bounded = rw (Dict.length-insert_old key _ old c.entries found) v.bounded;
        roomy = v.roomy;
      })
      | inl new ↦ elim (Bool-cases (eqb (length c.entries) c.maxsize)) [
        | inl full ↦
            rw (new, full)
              (record {
                nodup = Dict.insert-NodupKeys key _ _ (evict-NodupKeys c.entries v.nodup);
                bounded =
                    rw
                      (Dict.length-insert_new key _ _ (lookup-evict-none key c.entries v.nodup new))
                      (rw (length-evict c.entries v.nodup (nonempty c v full)) v.bounded);
                roomy = v.roomy;
              })
        | inr free ↦
            rw (new, free)
              (record {
                nodup = Dict.insert-NodupKeys key _ c.entries v.nodup;
                bounded = rw (Dict.length-insert_new key _ c.entries new) (ground arith);
                roomy = v.roomy;
              })
      ]
    ]

    -- A new key in a full cache takes the place of one entry, and no entry has less weight.
    pub store_full :
        (c : Cache K V) (key : K) (value : V) (now : ℕ)
        → IsValid c
        → Dict.lookup key c.entries ≡ none
        → length c.entries ≡ c.maxsize
        → (v : K × Entry V) × (Dict.lookup v.0 c.entries ≡ some v.1)
          × All (λ p. weight v ≤ weight p) c.entries
          × ((j : K)
              → Dict.lookup j (store weight c key value now).entries ≡ (
                  if j == key
                  then some (record { value = value; expire_at = now + c.ttl })
                  else if j == v.0
                  then none
                  else Dict.lookup j c.entries))
    unfolding store
    store_full c key value now v new full =
        let test : eqb (length c.entries) c.maxsize ≡ true = ground arith in
        let (out, found, least, rest) = evict_lem c.entries v.nodup (nonempty c v test) in
        (
          out,
          found,
          least,
          λ j. rw (new, test) (Dict.lookup-insert j key _ (evict weight c.entries) ∙ rw (rest j)),
        )

    -- Otherwise nothing makes room.
    pub store_room :
        (c : Cache K V) (key : K) (value : V) (now : ℕ)
        → (Dict.lookup key c.entries ≢ none) ⊎ (length c.entries < c.maxsize)
        → (j : K)
        → Dict.lookup j (store weight c key value now).entries ≡ (
            if j == key
            then some (record { value = value; expire_at = now + c.ttl })
            else Dict.lookup j c.entries)
    unfolding store
    store_room c key value now room j = elim (Option-cases (Dict.lookup key c.entries)) [
      | inr (old, found) ↦ rw found (Dict.lookup-insert j key _ c.entries)
      | inl new ↦
          let test : eqb (length c.entries) c.maxsize ≡ false = ground arith in
          rw (new, test) (Dict.lookup-insert j key _ c.entries)
    ]
