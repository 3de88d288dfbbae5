-- ===== src/Repos/Lock/World/Holdings.antt =====
-- Each access of a process that holds a lock, kept inside the invariant of the world.
use shim_service.Base.{
  ℕ, ◌≡◌, refl, ◌≢◌, inl, inr, String, Bool, false, Option, none, some, arith, eqb, beq_refl,
  Option-cases, Bool-cases, string_eq, nat_eq, subst,
}
use shim_service.Repos.Table.{Table, IsLawful, holds}
use shim_service.Repos.Lock.{LocalDto, Lock, release, refresh_patch, refresh_create, refresh_target}
use shim_service.Repos.Lock.Attempts.{IsKeyed}
use shim_service.Repos.Lock.World.{
  World, idle, holding, set_process, set_pending, patch_from, retry_from, refresh_from,
  release_from, seconds,
}
use shim_service.Repos.Lock.World.Frame.{Good, Inv, write-Inv, still-Inv, same-Inv, own-NoLive}
use shim_service.Repos.Lock.World.Accesses.{update_if-IsKeyed}

module _ (t : Table String LocalDto) (L : IsLawful t) where
  delete_if-IsKeyed :
      (s : t.State) (n : String) (p : LocalDto → Bool)
      → IsKeyed t s
      → IsKeyed t (t.delete_if s n p).0
  delete_if-IsKeyed s n p keyed k r h = ground (arith, L.get-delete_if s n p k, keyed k r)

  -- Which refreshes are under way is nothing to the invariant.
  set_pending-Inv : (w : World t) (i : ℕ) (p : Option ℕ) → Inv t w → Inv t (set_pending t w i p)
  set_pending-Inv w i p v = record { keyed = v.keyed; good = v.good; exclusive = v.exclusive }

  -- The first access of a refresh, whatever the table has: where it fails, nothing changes.
  patch_from-Inv :
      (w : World t) (v : Inv t w) (i : ℕ) (lock : Lock) (target : Option ℕ)
      → w.process i ≡ holding lock
      → Inv t (patch_from t w i lock target)
  unfolding patch_from refresh_patch
  patch_from-Inv w v i lock none h = v
  patch_from-Inv w v i lock (some target) h =
      let n : String = lock.name in
      let matches : LocalDto → Bool = λ r. eqb r.timeout_at lock.timeout_at in
      let write : LocalDto → LocalDto = λ r. record r { timeout_at = target } in
      let kept : holds matches (t.get_item w.table n) ≡ false
          → (m : String)
          → t.get_item (t.update_if w.table n matches write).0 m ≡ t.get_item w.table m =
        λ bad m. ground (arith, L.get-update_if w.table n matches write m, bad) in
      elim (Option-cases (t.get_item w.table n)) [
        | inl e ↦
            rw (L.update_if_ok w.table n matches write, e)
              (set_pending-Inv _ i _ (same-Inv t w v i _ _ (kept (rw e refl)) h))
        | inr (r, e) ↦ elim (Bool-cases (eqb r.timeout_at lock.timeout_at)) [
          | inl same ↦
              rw (L.update_if_ok w.table n matches write, e, same)
                (set_pending-Inv _ i _ (
                  write-Inv t w v i _ _ n (own-NoLive t w v i n lock r h refl e (ground arith))
                    (λ m ne.
                      ground
                        (arith, string_eq.beq_iff m n, L.get-update_if w.table n matches write m))
                    (update_if-IsKeyed t L w.table n matches target v.keyed)
                    (
                      (subst (Good t (seconds t w) w.table) h (v.good i)).0,
                      λ live. ground (arith, L.get-update_if w.table n matches write n, beq_refl n),
                    )
                    (λ l q. ground arith)))
          | inr other ↦
              rw (L.update_if_ok w.table n matches write, e, other)
                (set_pending-Inv _ i _ (same-Inv t w v i _ _ (kept (rw (e, other) refl)) h))
        ]
      ]

  -- The second, where an item is there: it fails, and the lock stays as it was.
  pub retry_from-Inv :
      (w : World t) (v : Inv t w) (i : ℕ) (lock : Lock) (target : Option ℕ)
      → w.process i ≡ holding lock
      → (target ≢ none → t.get_item w.table lock.name ≢ none)
      → Inv t (retry_from t w i lock target)
  unfolding retry_from refresh_create
  retry_from-Inv w v i lock none h present = v
  retry_from-Inv w v i lock (some target) h present =
      let n : String = lock.name in
      let own : LocalDto = record { resource_name = n; timeout_at = lock.timeout_at } in
      elim (Option-cases (t.get_item w.table n)) [
        | inl e ↦ absurd (present (λ q. ground arith) e)
        | inr (r, e) ↦
            rw (L.put_new_ok w.table n own, e)
              (set_pending-Inv _ i none
                (same-Inv t w v i _ _ (λ m. ground (arith, e, L.get-put_new w.table n own m)) h))
      ]

  pub refresh-Inv :
      (w : World t) (v : Inv t w) (i : ℕ) (lock : Lock)
      → w.process i ≡ holding lock
      → Inv t (refresh_from t w i (holding lock))
  unfolding refresh_from
  refresh-Inv w v i lock h = elim (Option-cases (w.pending i)) [
    | inl free ↦
        rw (refresh_from, free) (patch_from-Inv w v i lock (refresh_target t lock w.clock) h)
    | inr (target, busy) ↦ rw (refresh_from, busy) v
  ]

  release_free-Inv :
      (w : World t) (v : Inv t w) (i : ℕ) (lock : Lock)
      → w.process i ≡ holding lock
      → let (ok, lock', s') = release t lock w.table in Inv t (set_process t w i idle s')
  unfolding release
  release_free-Inv w v i lock h =
      let n : String = lock.name in
      let matches : LocalDto → Bool = λ r. eqb r.timeout_at lock.timeout_at in
      let free = (subst (Good t (seconds t w) w.table) h (v.good i)).0 in
      elim (Option-cases (t.get_item w.table n)) [
        | inl e ↦ rw free (
            still-Inv t w v i _ _ (λ m. ground (arith, L.get-delete_if w.table n matches m)) tt
              (λ l q. cc))
        | inr (r, e) ↦ elim (Bool-cases (eqb r.timeout_at lock.timeout_at)) [
          | inl same ↦ rw free (
              write-Inv t w v i _ _ n (own-NoLive t w v i n lock r h refl e (ground arith))
                (λ m ne. ground (arith, string_eq.beq_iff m n, L.get-delete_if w.table n matches m))
                (delete_if-IsKeyed w.table n matches v.keyed) tt (λ l q. cc))
          | inr other ↦ rw free (
              still-Inv t w v i _ _ (λ m. ground (arith, L.get-delete_if w.table n matches m)) tt
                (λ l q. cc))
        ]
      ]

  pub release-Inv :
      (w : World t) (v : Inv t w) (i : ℕ) (lock : Lock)
      → w.process i ≡ holding lock
      → Inv t (release_from t w i (holding lock))
  unfolding release_from
  release-Inv w v i lock h = elim (Option-cases (w.pending i)) [
    | inl free ↦ rw (release_from, free) (release_free-Inv w v i lock h)
    | inr (target, busy) ↦ rw (release_from, busy) v
  ]
