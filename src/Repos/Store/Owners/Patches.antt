-- ===== src/Repos/Store/Owners/Patches.antt =====
-- Patching rows, and the owners of the sessions after one is touched.
use shim_service.Base.{
  ℕ, ◌≡◌, refl, sym, ap, ◌∙◌, ◌≢◌, String, true, false, Option, none, some, [], ◌∷◌, Bool-cases,
  Option-cases, inl, inr, ◌==◌, nat_eq, string_eq, pair_eq, beq_refl,
}
use shim_service.Base.Dict.{lookup, lookup-insert}
use shim_service.Records.{Value, Record}
use shim_service.Session.{SessionKey}
use shim_service.Repos.Database.{holds_on, effect, patched, Rows, all_hold, committed}
use shim_service.Repos.Store.{session_item, user_item, touch_requests}
use shim_service.Repos.Store.Owners.Writers.{session_ne, user_ne, text-cases}
use shim_service.Repos.Store.Owners.{IsLive, IsOwned, committed_failed, IsOwned-kept, IsOwned-same}

-- Patching: what a patch names, it sets, and all else stays.
abbrev pub first_of {ℓ} : {A : Type ℓ} → Option A → Option A → Option A
first_of none b = b
first_of (some a) b = some a

pub lookup-patched :
    (j : String) (p row : Record) → lookup j (patched p row) ≡ first_of (lookup j p) (lookup j row)
unfolding patched lookup
lookup-patched j [] row = refl
lookup-patched j ((k, v) ∷ p) row = elim (Bool-cases (j == k)) [
  | inl same ↦ rw (lookup-insert j k v (patched p row), same) refl
  | inr other ↦ rw (lookup-insert j k v (patched p row), other) (lookup-patched j p row)
]

-- A write of the expiration time alone.
abbrev expiry : ℕ → Record
expiry time = ("expireTime", Value.int time) ∷ []

touched_field :
    (j : String) (time : ℕ) (row : Record)
    → (j == "expireTime") ≡ false
    → lookup j (patched (expiry time) row) ≡ lookup j row
unfolding lookup
touched_field j time row h = lookup-patched j (expiry time) row ∙ rw h refl

module _ (key : SessionKey) (user_id : String) (time : ℕ) (rows : Rows)
    (good : all_hold rows (touch_requests key user_id time) ≡ true) where
  abbrev touched : Rows
  touched = committed rows (touch_requests key user_id time)

  touched_same :
      (r : Record)
      → rows (session_item key.tenant_id key.session_id) ≡ some r
      → touched (session_item key.tenant_id key.session_id) ≡ some (patched (expiry time) r)
  unfolding committed effect
  touched_same r e =
      rw (good, beq_refl ⦃e = pair_eq⦄ (session_item key.tenant_id key.session_id), e) refl

  touched_other :
      (session_id : String)
      → session_id ≢ key.session_id
      → touched (session_item key.tenant_id session_id)
        ≡ rows (session_item key.tenant_id session_id)
  unfolding committed
  touched_other session_id ne =
      rw (good, session_ne key.tenant_id session_id key.session_id ne) refl

  touched_user :
      (u : Record)
      → rows (user_item key.tenant_id user_id) ≡ some u
      → touched (user_item key.tenant_id user_id) ≡ some (patched (expiry time) u)
  unfolding committed effect
  touched_user u e = rw (good, beq_refl ⦃e = pair_eq⦄ (user_item key.tenant_id user_id), e) refl

  touched_users :
      (user : String)
      → user ≢ user_id
      → touched (user_item key.tenant_id user) ≡ rows (user_item key.tenant_id user)
  unfolding committed
  touched_users user ne = rw (good, user_ne key.tenant_id user user_id ne) refl

  touched_there : (r : Record) × (rows (session_item key.tenant_id key.session_id) ≡ some r)
  unfolding holds_on
  touched_there = elim (Option-cases (rows (session_item key.tenant_id key.session_id))) [
    | inl e ↦ cc (rw e at good)
    | inr found ↦ found
  ]

  touched_session :
      (session_id : String) (row : Record)
      → touched (session_item key.tenant_id session_id) ≡ some row
      → IsLive row
      → (r : Record) × (rows (session_item key.tenant_id session_id) ≡ some r)
        × IsLive r
        × (lookup "userId" row ≡ lookup "userId" r)
  touched_session session_id row there live = elim (text-cases session_id key.session_id) [
    | inl same ↦
        let (r, e) = touched_there in
        let new : patched (expiry time) r ≡ row =
          cc (touched_same r e, there, ap (session_item key.tenant_id) same) in
        let as_was = λ (j : String) (ne : (j == "expireTime") ≡ false).
          ap (lookup j) (sym new) ∙ touched_field j time r ne in
        (
          r,
          ap (λ (x : String). rows (session_item key.tenant_id x)) same ∙ e,
          (λ failed. live (as_was "sessionStatus" refl ∙ failed)),
          as_was "userId" refl,
        )
    | inr other ↦ (row, sym (touched_other session_id other) ∙ there, live, refl)
  ]

  touched_owner :
      (user : String) (u : Record)
      → rows (user_item key.tenant_id user) ≡ some u
      → (w : Record) × (touched (user_item key.tenant_id user) ≡ some w)
        × (lookup "sessionId" w ≡ lookup "sessionId" u)
  touched_owner user u there = elim (text-cases user user_id) [
    | inl same ↦ (
      patched (expiry time) u,
      ap (λ (x : String). touched (user_item key.tenant_id x)) same
          ∙ touched_user u
              (ap (λ (x : String). rows (user_item key.tenant_id x)) (sym same) ∙ there),
      touched_field "sessionId" time u refl,
    )
    | inr other ↦ (u, touched_users user other ∙ there, refl)
  ]

pub touch-IsOwned :
    (key : SessionKey) (user_id : String) (time : ℕ) (rows : Rows)
    → IsOwned key.tenant_id rows
    → IsOwned key.tenant_id (committed rows (touch_requests key user_id time))
touch-IsOwned key user_id time rows owned =
    let rs = touch_requests key user_id time in
    elim (Bool-cases (all_hold rows rs)) [
      | inl good ↦
          IsOwned-kept key.tenant_id rows (committed rows rs)
            (touched_session key user_id time rows good) (touched_owner key user_id time rows good)
            owned
      | inr bad ↦
          IsOwned-same key.tenant_id rows (committed rows rs)
            (λ i. committed_failed rows rs (session_item key.tenant_id i) bad)
            (λ u. committed_failed rows rs (user_item key.tenant_id u) bad) owned
    ]
