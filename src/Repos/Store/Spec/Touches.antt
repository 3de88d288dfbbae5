-- ===== src/Repos/Store/Spec/Touches.antt =====
-- What touching a session does to the maps.
use shim_service.Base.{
  ℕ, ◌≡◌, refl, ◌∙◌, String, Bool, true, some, [], ◌∷◌, Option-cases, inl, inr, if◌then◌else◌,
  nat_eq, string_eq, pair_eq,
}
use shim_service.Records.{Value, Record}
use shim_service.Session.{SessionKey}
use shim_service.Repos.Database.{Request, holds_on, effect, patched, Rows, all_hold, committed}
use shim_service.Repos.Store.{session_item, user_item, sfdc_item, touch_requests}
use shim_service.Repos.Store.Spec.{with_expiry, all_there}
use shim_service.Repos.Store.Spec.Views.{
  view, same_tenant, session_eq, user_eq, sfdc_eq, failed_view, committed_good, effect_at,
}

module _ (rows : Rows) (key : SessionKey) (user_id : String) (time : ℕ) where
  abbrev pub has_all : Bool
  has_all =
      all_there (rows (session_item key.tenant_id key.session_id))
        (rows (user_item key.tenant_id user_id)) (rows (sfdc_item key.tenant_id key.session_id))

  pub touch-holds : all_hold rows (touch_requests key user_id time) ≡ has_all
  unfolding holds_on
  touch-holds = elim (Option-cases (rows (session_item key.tenant_id key.session_id))) [
    | inl e ↦ rw e refl
    | inr (a, e) ↦ elim (Option-cases (rows (user_item key.tenant_id user_id))) [
      | inl f ↦ rw (e, f) refl
      | inr (b, f) ↦ elim (Option-cases (rows (sfdc_item key.tenant_id key.session_id))) [
        | inl g ↦ rw (e, f, g) refl
        | inr (c, g) ↦ rw (e, f, g) refl
      ]
    ]
  ]

  -- Where the three rows are there, each has the new time.
  touched-view :
      (a b c : Record)
      → rows (session_item key.tenant_id key.session_id) ≡ some a
      → rows (user_item key.tenant_id user_id) ≡ some b
      → rows (sfdc_item key.tenant_id key.session_id) ≡ some c
      → view key.tenant_id (committed rows (touch_requests key user_id time))
        ≡ with_expiry key.session_id user_id time (view key.tenant_id rows)
  unfolding effect patched
  touched-view a b c e f g =
      let rs = touch_requests key user_id time in
      let t = key.tenant_id in
      let holds : all_hold rows rs ≡ true = touch-holds ∙ rw (e, f, g) refl in
      same_tenant (view t (committed rows rs))
        (with_expiry key.session_id user_id time (view t rows))
        (λ i.
          committed_good rows rs (session_item t i) holds
          ∙ rw (session_eq t i key.session_id) (
              effect_at (λ x. rows (session_item t x))
                (effect (
                  Request.update (session_item t key.session_id)
                    (("expireTime", Value.int time) ∷ []) [] true))
                i key.session_id
              ∙ rw e refl))
        (λ i.
          committed_good rows rs (user_item t i) holds
          ∙ rw (user_eq t i user_id) (
              effect_at (λ x. rows (user_item t x))
                (effect (
                  Request.update (user_item t user_id) (("expireTime", Value.int time) ∷ []) []
                    true))
                i user_id
              ∙ rw f refl))
        (λ i.
          committed_good rows rs (sfdc_item t i) holds
          ∙ rw (sfdc_eq t i key.session_id) (
              effect_at (λ x. rows (sfdc_item t x))
                (effect (
                  Request.update (sfdc_item t key.session_id) (("expireTime", Value.int time) ∷ [])
                    [] true))
                i key.session_id
              ∙ rw g refl))

  pub touch-view : view key.tenant_id (committed rows (touch_requests key user_id time)) ≡ (
      if has_all
      then with_expiry key.session_id user_id time (view key.tenant_id rows)
      else view key.tenant_id rows)
  unfolding holds_on
  touch-view =
      let rs = touch_requests key user_id time in
      elim (Option-cases (rows (session_item key.tenant_id key.session_id))) [
        | inl e ↦ failed_view key.tenant_id rows rs (rw e refl) ∙ rw e refl
        | inr (a, e) ↦ elim (Option-cases (rows (user_item key.tenant_id user_id))) [
          | inl f ↦ failed_view key.tenant_id rows rs (rw (e, f) refl) ∙ rw (e, f) refl
          | inr (b, f) ↦ elim (Option-cases (rows (sfdc_item key.tenant_id key.session_id))) [
            | inl g ↦ failed_view key.tenant_id rows rs (rw (e, f, g) refl) ∙ rw (e, f, g) refl
            | inr (c, g) ↦ touched-view a b c e f g ∙ rw (e, f, g) refl
          ]
        ]
      ]
