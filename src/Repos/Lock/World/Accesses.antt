-- ===== src/Repos/Lock/World/Accesses.antt =====
-- Each access of an attempt to the table, kept inside the invariant of the world.
use shim_service.Base.{
  ℕ, ◌≤◌, ◌≡◌, refl, ◌≢◌, inl, inr, String, Bool, Option, none, some, arith, eqb, leb, beq_refl,
  Option-cases, Bool-cases, if◌then◌else◌, string_eq, nat_eq,
}
use shim_service.Repos.Table.{Table, IsLawful}
use shim_service.Repos.Lock.{
  LocalDto, Lock, Attempt, creating, reading, recreating, patching, acquired, refused, lost,
  advance, examine,
}
use shim_service.Repos.Lock.Attempts.{IsKeyed}
use shim_service.Repos.Lock.World.{
  World, trying, holding, settle, set_process, access_from, seconds,
}
use shim_service.Repos.Lock.World.Frame.{
  Early, Good, Inv, write-Inv, still-Inv, missing-NoLive, passed-NoLive,
}

module _ (t : Table String LocalDto) (L : IsLawful t) where
  put_new-IsKeyed :
      (s : t.State) (dto : LocalDto) → IsKeyed t s → IsKeyed t (t.put_new s dto.resource_name dto).0
  put_new-IsKeyed s dto keyed k r h = ground (
    arith,
    string_eq.beq_iff k dto.resource_name,
    L.get-put_new s dto.resource_name dto k,
    keyed k r,
  )

  pub update_if-IsKeyed :
      (s : t.State) (n : String) (p : LocalDto → Bool) (target : ℕ)
      → IsKeyed t s
      → IsKeyed t (t.update_if s n p (λ r. record r { timeout_at = target })).0
  update_if-IsKeyed s n p target keyed k r h = elim (Option-cases (t.get_item s k)) [
    | inl e ↦ ground (
      arith,
      string_eq.beq_iff k n,
      L.get-update_if s n p (λ r. record r { timeout_at = target }) k,
    )
    | inr (q, e) ↦ ground (
      arith,
      string_eq.beq_iff k n,
      L.get-update_if s n p (λ r. record r { timeout_at = target }) k,
      keyed k q,
    )
  ]

  -- The first access, and the third, which differ in where a failure leads.
  create-Inv :
      (w : World t) (v : Inv t w) (i secs : ℕ) (dto : LocalDto) (other : Attempt)
      → ((s : t.State) → Good t (seconds t w) s (settle secs other))
      → ((l : Lock) → settle secs other ≢ holding l)
      → let (s', ok) = t.put_new w.table dto.resource_name dto in
        Inv t (set_process t w i (settle secs (if ok then acquired dto else other)) s')
  create-Inv w v i secs dto other g free =
      let n : String = dto.resource_name in
      elim (Option-cases (t.get_item w.table n)) [
        | inl e ↦
            rw (L.put_new_ok w.table n dto, e)
              (write-Inv t w v i _ _ n (missing-NoLive t w v i n e)
                (λ m ne. ground (arith, string_eq.beq_iff m n, L.get-put_new w.table n dto m))
                (put_new-IsKeyed w.table dto v.keyed)
                (refl, λ live. ground (arith, L.get-put_new w.table n dto n, beq_refl n))
                (λ l h. ground arith))
        | inr (r, e) ↦
            rw (L.put_new_ok w.table n dto, e)
              (still-Inv t w v i _ _ (λ m. ground (arith, L.get-put_new w.table n dto m)) (g _)
                free)
      ]

  read-Inv :
      (w : World t) (v : Inv t w) (i secs st : ℕ) (dto : LocalDto) (found : Option LocalDto)
      → t.get_item w.table dto.resource_name ≡ found
      → st ≤ seconds t w
      → Inv t (set_process t w i (settle secs (examine t st dto found)) w.table)
  unfolding examine
  read-Inv w v i secs st dto none e h = still-Inv t w v i _ _ (λ m. refl) h (λ l q. cc)
  read-Inv w v i secs st dto (some r) e h = elim (Bool-cases (leb st r.timeout_at)) [
    | inl live ↦ rw live (still-Inv t w v i _ _ (λ m. refl) tt (λ l q. cc))
    | inr past ↦
        rw past (still-Inv t w v i _ _ (λ m. refl) (h, ground arith, v.keyed _ r e) (λ l q. cc))
  ]

  patch-Inv :
      (w : World t) (v : Inv t w) (i secs st : ℕ) (dto current : LocalDto)
      → Early t (seconds t w) (patching st dto current)
      → let (a, s') = advance t (patching st dto current) w.table in
        Inv t (set_process t w i (settle secs a) s')
  unfolding advance
  patch-Inv w v i secs st dto current early =
      let n : String = current.resource_name in
      let matches : LocalDto → Bool = λ r. eqb r.timeout_at current.timeout_at in
      let write : LocalDto → LocalDto = λ r. record r { timeout_at = dto.timeout_at } in
      elim (Option-cases (t.get_item w.table n)) [
        | inl e ↦
            rw (L.update_if_ok w.table n matches write, e)
              (still-Inv t w v i _ _
                (λ m. ground (arith, L.get-update_if w.table n matches write m)) tt (λ l q. cc))
        | inr (r, e) ↦ elim (Bool-cases (eqb r.timeout_at current.timeout_at)) [
          | inl same ↦
              rw (L.update_if_ok w.table n matches write, e, same)
                (write-Inv t w v i _ _ n (passed-NoLive t w v i n r e (ground arith))
                  (λ m ne.
                    ground
                      (arith, string_eq.beq_iff m n, L.get-update_if w.table n matches write m))
                  (update_if-IsKeyed w.table n matches dto.timeout_at v.keyed)
                  (
                    refl,
                    λ live.
                        rw (← early.2)
                          (ground (arith, L.get-update_if w.table n matches write n, beq_refl n)),
                  )
                  (λ l h. ground (arith, early.2)))
          | inr other ↦
              rw (L.update_if_ok w.table n matches write, e, other)
                (still-Inv t w v i _ _
                  (λ m. ground (arith, L.get-update_if w.table n matches write m)) tt (λ l q. cc))
        ]
      ]

  pub access-Inv :
      (w : World t) (v : Inv t w) (i secs : ℕ) (a : Attempt)
      → Early t (seconds t w) a
      → Inv t (access_from t w i (trying secs a))
  unfolding access_from advance
  access-Inv w v i secs (creating st dto) g =
      create-Inv w v i secs dto (reading st dto) (λ s. g) (λ l q. cc)
  access-Inv w v i secs (reading st dto) g = read-Inv w v i secs st dto _ refl g
  access-Inv w v i secs (recreating st dto) g =
      create-Inv w v i secs dto refused (λ s. tt) (λ l q. cc)
  access-Inv w v i secs (patching st dto current) g = patch-Inv w v i secs st dto current g
  access-Inv w v i secs (acquired dto) g = elim g [ ]
  access-Inv w v i secs refused g = elim g [ ]
  access-Inv w v i secs lost g = elim g [ ]
