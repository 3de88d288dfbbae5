-- ===== src/Repos/Lock/World/Frame.antt =====
-- The invariant of the processes that use locks, and what a change to one item asks of it.
use shim_service.Base.{
  ℕ, ◌≤◌, ◌<◌, ◌≡◌, refl, sym, ◌∙◌, ◌≢◌, inl, inr, String, none, some, arith, eqb, Bool-cases, ◌==◌,
  string_eq, nat_eq, eqb_iff, subst, ap,
}
use shim_service.Repos.Table.{Table}
use shim_service.Repos.Lock.{
  LocalDto, Lock, Attempt, creating, reading, recreating, patching, acquired, refused, lost,
}
use shim_service.Repos.Lock.Attempts.{expiry, IsKeyed}
use shim_service.Repos.Lock.World.{
  World, Process, idle, trying, holding, update, set_process, seconds, Exclusive,
}

module _ (t : Table String LocalDto) where
  -- What an attempt has seen is in the past, and an expiry that it may replace has passed.
  abbrev pub Early : ℕ → Attempt → Type 0
  Early now (creating st dto) = st ≤ now
  Early now (reading st dto) = st ≤ now
  Early now (recreating st dto) = st ≤ now
  Early now (patching st dto current) =
      (st ≤ now) × (current.timeout_at < st) × (current.resource_name ≡ dto.resource_name)
  Early now (acquired dto) = ⊥
  Early now refused = ⊥
  Early now lost = ⊥

  abbrev pub Good : ℕ → t.State → Process → Type 0
  Good now s idle = Unit
  Good now s (trying secs a) = Early now a
  Good now s (holding l) =
      (l.release_result ≡ none)
      × (now ≤ l.timeout_at → expiry (t.get_item s l.name) ≡ some l.timeout_at)

  pub record Inv (w : World t) : Type 0 where
    pub keyed : IsKeyed t w.table
    pub good : (i : ℕ) → Good (seconds t w) w.table (w.process i)
    pub exclusive : Exclusive t w

  -- No process but `i` holds the lock in its term.
  abbrev pub NoLive : World t → ℕ → String → Type 0
  NoLive w i n =
      (j : ℕ) (l : Lock)
      → j ≢ i
      → w.process j ≡ holding l
      → l.name ≡ n
      → seconds t w ≤ l.timeout_at
      → ⊥

  Good-keep :
      (now : ℕ) (s s' : t.State) (p : Process)
      → ((l : Lock)
          → p ≡ holding l
          → now ≤ l.timeout_at
          → t.get_item s' l.name ≡ t.get_item s l.name)
      → Good now s p
      → Good now s' p
  Good-keep now s s' idle same g = tt
  Good-keep now s s' (trying secs a) same g = g
  Good-keep now s s' (holding l) same g = (g.0, λ live. ap expiry (same l refl live) ∙ g.1 live)

  module _ (w : World t) (v : Inv w) (i : ℕ) (p : Process) (s' : t.State) where
    replace-Good :
        ((j : ℕ) (l : Lock)
          → j ≢ i
          → w.process j ≡ holding l
          → seconds t w ≤ l.timeout_at
          → t.get_item s' l.name ≡ t.get_item w.table l.name)
        → Good (seconds t w) s' p
        → (j : ℕ) → Good (seconds t w) s' (update w.process i p j)
    replace-Good same g j = elim (Bool-cases (eqb j i)) [
      | inl e ↦ rw e g
      | inr e ↦ rw e (
          Good-keep (seconds t w) w.table s' (w.process j)
            (λ l h. same j l (λ q. ground (arith, eqb_iff j i)) h) (v.good j))
    ]

    replace-Exclusive :
        ((l : Lock) → p ≡ holding l → seconds t w ≤ l.timeout_at → NoLive w i l.name)
        → Exclusive t (set_process t w i p s')
    replace-Exclusive sole a b l k ha hb same la lb = elim (Bool-cases (eqb a i)) [
      | inl ea ↦ elim (Bool-cases (eqb b i)) [
        | inl eb ↦ (eqb_iff a i).0 ea ∙ sym ((eqb_iff b i).0 eb)
        | inr eb ↦ absurd (
            sole l (rw ea at ha) la b k (λ q. ground (arith, eqb_iff b i)) (rw eb at hb) (sym same)
              lb)
      ]
      | inr ea ↦ elim (Bool-cases (eqb b i)) [
        | inl eb ↦
            absurd
              (sole k (rw eb at hb) lb a l (λ q. ground (arith, eqb_iff a i)) (rw ea at ha) same la)
        | inr eb ↦ v.exclusive a b l k (rw ea at ha) (rw eb at hb) same la lb
      ]
    ]

    -- A write to the item of `n` while nobody else holds that lock.
    pub write-Inv :
        (n : String)
        → NoLive w i n
        → ((m : String) → m ≢ n → t.get_item s' m ≡ t.get_item w.table m)
        → IsKeyed t s'
        → Good (seconds t w) s' p
        → ((l : Lock) → p ≡ holding l → l.name ≡ n)
        → Inv (set_process t w i p s')
    write-Inv n alone same keyed g about = record {
      keyed = keyed;
      good =
          replace-Good
            (λ j l ne h live. elim (Bool-cases (l.name == n)) [
              | inl e ↦ absurd (alone j l ne h ((string_eq.beq_iff l.name n).0 e) live)
              | inr e ↦ same l.name (λ q. ground (arith, string_eq.beq_iff l.name n))
            ])
            g;
      exclusive =
          replace-Exclusive
            (λ l h live j k ne hk same_name. alone j k ne hk (same_name ∙ about l h));
    }

    -- A step that leaves every item alone and takes no lock.
    pub still-Inv :
        ((m : String) → t.get_item s' m ≡ t.get_item w.table m)
        → Good (seconds t w) s' p
        → ((l : Lock) → p ≢ holding l)
        → Inv (set_process t w i p s')
    still-Inv same g free = record {
      keyed = λ k r h. v.keyed k r (sym (same k) ∙ h);
      good = replace-Good (λ j l ne h live. same l.name) g;
      exclusive = replace-Exclusive (λ l h live. absurd (free l h));
    }

    -- A step that leaves every item and every process alone.
    pub same-Inv :
        ((m : String) → t.get_item s' m ≡ t.get_item w.table m)
        → w.process i ≡ p
        → Inv (set_process t w i p s')
    same-Inv same e = record {
      keyed = λ k r h. v.keyed k r (sym (same k) ∙ h);
      good =
          replace-Good (λ j l ne h live. same l.name)
            (Good-keep (seconds t w) w.table s' p (λ l h live. same l.name)
              (subst (Good (seconds t w) w.table) e (v.good i)));
      exclusive = replace-Exclusive (λ l h live j k ne hk same_name term.
          ne (v.exclusive j i k l hk (e ∙ h) same_name term live));
    }

  module _ (w : World t) (v : Inv w) where
    held-expiry :
        (j : ℕ) (l : Lock)
        → w.process j ≡ holding l
        → seconds t w ≤ l.timeout_at
        → expiry (t.get_item w.table l.name) ≡ some l.timeout_at
    held-expiry j l h live = (subst (Good (seconds t w) w.table) h (v.good j)).1 live

    pub missing-NoLive : (i : ℕ) (n : String) → t.get_item w.table n ≡ none → NoLive w i n
    missing-NoLive i n e j l ne h same live =
        let found = held-expiry j l h live in ground (arith, ap (t.get_item w.table) same)

    pub passed-NoLive :
        (i : ℕ) (n : String) (r : LocalDto)
        → t.get_item w.table n ≡ some r
        → r.timeout_at < seconds t w
        → NoLive w i n
    passed-NoLive i n r e past j l ne h same live =
        let found = held-expiry j l h live in ground (arith, ap (t.get_item w.table) same)

    pub own-NoLive :
        (i : ℕ) (n : String) (k : Lock) (r : LocalDto)
        → w.process i ≡ holding k
        → k.name ≡ n
        → t.get_item w.table n ≡ some r
        → r.timeout_at ≡ k.timeout_at
        → NoLive w i n
    own-NoLive i n k r hk about e own j l ne h same live =
        let found = held-expiry j l h live in
        let term : l.timeout_at ≡ k.timeout_at = ground (arith, ap (t.get_item w.table) same) in
        ne (v.exclusive j i l k h hk (same ∙ sym about) live (omega arith))
