-- ===== src/Repos/Lock/Attempts.antt =====
-- What one attempt of `try_acquire`, a release and a refresh do to the table, whatever other
-- processes do between their accesses.
use shim_service.Base.{
  ℕ, ◌≤◌, ◌<◌, ◌≡◌, refl, ap, ◌∙◌, inl, inr, String, Bool, true, ◌&&◌, Option, none, some, arith,
  ltb, lt→ltb, sym, beq_refl, Option-cases, ◌==◌, if◌then◌else◌, string_eq, nat_eq,
}
use shim_service.Repos.Table.{Table, IsLawful, holds}
use shim_service.Repos.Lock.{
  LocalDto, Lock, creating, reading, recreating, acquired, refused, advance, examine, accesses,
  release, refresher,
}

-- The expiry that the table shows for a name.
abbrev pub expiry : Option LocalDto → Option ℕ
expiry none = none
expiry (some r) = some r.timeout_at

-- Every item stands under its own name.
abbrev pub IsKeyed : (t : Table String LocalDto) → t.State → Type 0
IsKeyed t s = (k : String) (r : LocalDto) → t.get_item s k ≡ some r → r.resource_name ≡ k

module _ (t : Table String LocalDto) (L : IsLawful t) where
  -- While the item of a name shows an expiry that the attempt's start had not passed, an access
  -- neither acquires the lock nor changes the item.
  pub advance_held :
      (now : ℕ) (dto held : LocalDto) (s : t.State)
      → t.get_item s dto.resource_name ≡ some held
      → now ≤ held.timeout_at
      → ((advance t (creating now dto) s).0 ≡ reading now dto)
        × (t.get_item (advance t (creating now dto) s).1 dto.resource_name ≡ some held)
        × (advance t (reading now dto) s ≡ (refused, s))
        × ((advance t (recreating now dto) s).0 ≡ refused)
        × (t.get_item (advance t (recreating now dto) s).1 dto.resource_name ≡ some held)
  unfolding advance examine
  advance_held now dto held s found live = ground (
    arith,
    L.put_new_ok s dto.resource_name dto,
    L.get-put_new s dto.resource_name dto dto.resource_name,
  )

  create_settles :
      (now : ℕ) (dto : LocalDto) (s : t.State)
      → t.get_item s dto.resource_name ≡ none
      → let (a, s') = accesses t 4 (λ n u. u) (creating now dto) s in
        (a ≡ acquired dto) × (expiry (t.get_item s' dto.resource_name) ≡ some dto.timeout_at)
  unfolding accesses
  create_settles now dto s e =
      let n : String = dto.resource_name in
      rw (L.put_new_ok s n dto, e) (refl, ground (arith, L.get-put_new s n dto n, beq_refl n))

  read_settles :
      (now : ℕ) (dto held : LocalDto) (s s' : t.State)
      → t.get_item s dto.resource_name ≡ some held
      → t.get_item s' dto.resource_name ≡ some held
      → held.resource_name ≡ dto.resource_name
      → let (a, u) = accesses t 3 (λ n u. u) (reading now dto) s' in
        (a ≡ (if ltb held.timeout_at now then acquired dto else refused))
        × (expiry (t.get_item u dto.resource_name)
            ≡ (if ltb held.timeout_at now then some dto.timeout_at else some held.timeout_at))
  unfolding accesses
  read_settles now dto held s s' e e' name =
      let n : String = dto.resource_name in
      let m : String = held.resource_name in
      let matches : LocalDto → Bool = λ r. nat_eq.beq r.timeout_at held.timeout_at in
      let write : LocalDto → LocalDto = λ r. record r { timeout_at = dto.timeout_at } in
      let kept : t.get_item s' m ≡ some held = ap (t.get_item s') name ∙ e' in
      ground (
        arith,
        L.update_if_ok s' m matches write,
        L.get-update_if s' m matches write n,
        kept,
        e',
        name,
        beq_refl n,
        string_eq.beq_iff n m,
      )

  held_settles :
      (now : ℕ) (dto held : LocalDto) (s : t.State)
      → t.get_item s dto.resource_name ≡ some held
      → held.resource_name ≡ dto.resource_name
      → let (a, u) = accesses t 4 (λ n u. u) (creating now dto) s in
        (a ≡ (if ltb held.timeout_at now then acquired dto else refused))
        × (expiry (t.get_item u dto.resource_name)
            ≡ (if ltb held.timeout_at now then some dto.timeout_at else some held.timeout_at))
  unfolding accesses
  held_settles now dto held s e name =
      let n : String = dto.resource_name in
      let s' = (t.put_new s n dto).0 in
      let kept : t.get_item s' n ≡ some held = ground (arith, L.get-put_new s n dto n) in
      rw (L.put_new_ok s n dto, e) (read_settles now dto held s s' e kept name)

  -- Whether an attempt that started at `now` may take the lock.
  abbrev pub available : ℕ → Option LocalDto → Bool
  available now none = true
  available now (some held) = ltb held.timeout_at now

  -- An undisturbed attempt acquires the lock exactly if there is no item or its expiry has passed,
  -- and then the item shows the new expiry; otherwise it is refused and the item's expiry stays.
  pub accesses_lem :
      (now : ℕ) (dto : LocalDto) (s : t.State)
      → IsKeyed t s
      → let (a, s') = accesses t 4 (λ n u. u) (creating now dto) s in
        let found = t.get_item s dto.resource_name in
        (a ≡ (if available now found then acquired dto else refused))
        × (expiry (t.get_item s' dto.resource_name)
            ≡ (if available now found then some dto.timeout_at else expiry found))
  unfolding accesses
  accesses_lem now dto s keyed = elim (Option-cases (t.get_item s dto.resource_name)) [
    | inl e ↦ rw e (create_settles now dto s e)
    | inr (held, e) ↦ rw e (held_settles now dto held s e (keyed dto.resource_name held e))
  ]

  -- A release removes the item if it still shows the expiry of the lock, and no other item; it
  -- answers whether it did. A second release of the lock answers the same and changes nothing.
  pub release_lem :
      (lock : Lock) (s : t.State)
      → lock.release_result ≡ none
      → let (ok, lock', s') = release t lock s in
        let mine = holds (λ r. nat_eq.beq r.timeout_at lock.timeout_at) (t.get_item s lock.name) in
        (ok ≡ mine)
        × ((j : String)
            → t.get_item s' j ≡ (if (j == lock.name) && mine then none else t.get_item s j))
        × ((u : t.State) → release t lock' u ≡ (ok, lock', u))
  unfolding release
  release_lem lock s open_lock =
      let mine : LocalDto → Bool = λ r. nat_eq.beq r.timeout_at lock.timeout_at in
      rw open_lock
        (L.delete_if_ok s lock.name mine, (λ j. L.get-delete_if s lock.name mine j), λ u. refl)

  -- A refresh that finds no item stores the old expiry and reports the new one: once the old one
  -- has passed, the next attempt of another process takes the lock from its holder.
  pub refresher_stale :
      (lock : Lock) (target now : ℕ) (dto : LocalDto) (s : t.State)
      → t.get_item s lock.name ≡ none
      → dto.resource_name ≡ lock.name
      → lock.timeout_at < now
      → let (ok, lock', s') = refresher t lock target (λ u. u) s in
        (ok ≡ true)
        × (lock'.timeout_at ≡ target)
        × (expiry (t.get_item s' lock.name) ≡ some lock.timeout_at)
        × ((accesses t 4 (λ n u. u) (creating now dto) s').0 ≡ acquired dto)
  unfolding refresher
  refresher_stale lock target now dto s missing about past =
      let n : String = lock.name in
      let matches : LocalDto → Bool = λ r. nat_eq.beq r.timeout_at lock.timeout_at in
      let write : LocalDto → LocalDto = λ r. record r { timeout_at = target } in
      let own : LocalDto = record { resource_name = n; timeout_at = lock.timeout_at } in
      let s' = (t.update_if s n matches write).0 in
      let s'' = (t.put_new s' n own).0 in
      let gone : t.get_item s' n ≡ none = ground (arith, L.get-update_if s n matches write n) in
      let back : t.get_item s'' n ≡ some own =
        ground (arith, L.get-put_new s' n own n, beq_refl n) in
      rw (L.update_if_ok s n matches write, missing, L.put_new_ok s' n own, gone)
        (
          refl,
          refl,
          ap expiry back,
          (held_settles now dto own s'' (ap (t.get_item s'') about ∙ back) (sym about)).0
              ∙ rw (lt→ltb lock.timeout_at now past),
        )
