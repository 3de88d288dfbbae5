-- ===== src/Repos/Store/Spec/Views.antt =====
-- The three maps as a tenant's rows show them, and what each list of requests does to them.
use shim_service.Base.{
  ℕ, ◌≡◌, refl, ap, ◌∙◌, String, Bool, true, false, Option, none, some, List, [], ◌∷◌, Bool-cases,
  Option-cases, not, inl, inr, if◌then◌else◌, ◌==◌, nat_eq, string_eq, pair_eq, option_eq, beq_refl,
  subst,
}
use shim_service.Records.{Record, value_eq}
use shim_service.Session.{Session}
use shim_service.Repos.Table.{is_none}
use shim_service.Repos.Database.{
  ItemKey, Request, holds_on, effect, Rows, all_hold, applied, committed,
}
use shim_service.Repos.Store.{
  Surroundings, session_item, user_item, sfdc_item, update_with_state_check, delete_requests,
}
use shim_service.Repos.Store.Creates.{requests_for}
use shim_service.Repos.Store.Deletes.{delete_holds}
use shim_service.Repos.Store.Owners.{committed_failed}
use shim_service.Repos.Store.Owners.Orphans.{removal}
use shim_service.Repos.Store.Spec.{Map, Tenant, set_at, with_new, with_update, without, counts}

abbrev pub view : ℕ → Rows → Tenant
view tenant_id rows = record {
  sessions = λ i. rows (session_item tenant_id i);
  users = λ u. rows (user_item tenant_id u);
  sfdc_sessions = λ i. rows (sfdc_item tenant_id i);
}

pub same_tenant :
    (a b : Tenant)
    → ((i : String) → a.sessions i ≡ b.sessions i)
    → ((u : String) → a.users u ≡ b.users u)
    → ((i : String) → a.sfdc_sessions i ≡ b.sfdc_sessions i)
    → a ≡ b
same_tenant a b p q r =
    λ i. record { sessions = λ x. p x i; users = λ x. q x i; sfdc_sessions = λ x. r x i }

both : (x : Bool) → (if x then true else false) ≡ x
both true = refl
both false = refl

module _ (tenant_id : ℕ) (i j : String) where
  pub session_eq : (session_item tenant_id i == session_item tenant_id j) ≡ (i == j)
  session_eq = rw (beq_refl tenant_id) (both (i == j))

  pub user_eq : (user_item tenant_id i == user_item tenant_id j) ≡ (i == j)
  user_eq = rw (beq_refl tenant_id) (both (i == j))

  pub sfdc_eq : (sfdc_item tenant_id i == sfdc_item tenant_id j) ≡ (i == j)
  sfdc_eq = rw (beq_refl tenant_id) (both (i == j))

-- A transaction whose conditions do not all hold leaves the maps alone.
pub failed_view :
    (tenant_id : ℕ) (rows : Rows) (rs : List Request)
    → all_hold rows rs ≡ false
    → view tenant_id (committed rows rs) ≡ view tenant_id rows
failed_view tenant_id rows rs bad =
    same_tenant (view tenant_id (committed rows rs)) (view tenant_id rows)
      (λ i. committed_failed rows rs (session_item tenant_id i) bad)
      (λ u. committed_failed rows rs (user_item tenant_id u) bad)
      (λ i. committed_failed rows rs (sfdc_item tenant_id i) bad)

pub committed_good :
    (rows : Rows) (rs : List Request) (k : ItemKey)
    → all_hold rows rs ≡ true
    → committed rows rs k ≡ applied rs rows k
unfolding committed
committed_good rows rs k h = rw h refl

-- What a request leaves of the item that its key names, and the others.
pub effect_at :
    (f : Map) (g : Option Record → Option Record) (i j : String)
    → (if i == j then g (f i) else f i) ≡ set_at f j (g (f j)) i
effect_at f g i j = elim (Bool-cases (i == j)) [
  | inr other ↦ rw other refl
  | inl same ↦ rw same (ap (λ x. g (f x)) ((string_eq.beq_iff i j).0 same))
]

module _ (rows : Rows) (env : Surroundings) (session : Session) where
  abbrev own : Option Record
  own = rows (session_item session.tenant_id session.session_id)

  abbrev users_own : Option Record
  users_own = rows (user_item session.tenant_id session.user_id)

  created-view :
      own ≡ none
      → users_own ≡ none
      → view session.tenant_id (committed rows (requests_for env session))
        ≡ with_new env session none none (view session.tenant_id rows)
  unfolding holds_on effect
  created-view no_session no_user =
      let rs = requests_for env session in
      let good : all_hold rows rs ≡ true = rw (no_session, no_user) refl in
      same_tenant (view session.tenant_id (committed rows rs))
        (with_new env session none none (view session.tenant_id rows))
        (λ i.
          committed_good rows rs (session_item session.tenant_id i) good
          ∙ rw (session_eq session.tenant_id i session.session_id) refl)
        (λ u.
          committed_good rows rs (user_item session.tenant_id u) good
          ∙ rw (user_eq session.tenant_id u session.user_id) refl)
        (λ i. committed_good rows rs (sfdc_item session.tenant_id i) good)

  pub create-view :
      view session.tenant_id (committed rows (requests_for env session))
      ≡ with_new env session own users_own (view session.tenant_id rows)
  unfolding holds_on
  create-view = elim (Option-cases own) [
    | inr (row, e) ↦
        failed_view session.tenant_id rows (requests_for env session) (rw e refl) ∙ rw e refl
    | inl no_session ↦ elim (Option-cases users_own) [
      | inr (row, e) ↦
          failed_view session.tenant_id rows (requests_for env session) (rw (no_session, e) refl)
          ∙ rw (no_session, e) refl
      | inl no_user ↦ created-view no_session no_user ∙ rw (no_session, no_user) refl
    ]
  ]

  pub update-holds : all_hold rows (update_with_state_check env session ∷ []) ≡ counts session own
  unfolding holds_on
  update-holds = elim (Option-cases own) [
    | inl e ↦ rw e refl
    | inr (row, e) ↦ rw e (
        both (if counts session (some row) then true else false) ∙ both (counts session (some row)))
  ]

  updated-view :
      (row : Record)
      → own ≡ some row
      → counts session own ≡ true
      → view session.tenant_id (committed rows (update_with_state_check env session ∷ []))
        ≡ with_update env session (view session.tenant_id rows)
  unfolding effect
  updated-view row e good =
      let r = update_with_state_check env session in
      let holds = update-holds ∙ good in
      same_tenant (view session.tenant_id (committed rows (r ∷ [])))
        (with_update env session (view session.tenant_id rows))
        (λ i.
          committed_good rows (r ∷ []) (session_item session.tenant_id i) holds
          ∙ rw (session_eq session.tenant_id i session.session_id) (
              effect_at (λ x. rows (session_item session.tenant_id x)) (effect r) i
                session.session_id
              ∙ rw e refl))
        (λ u. committed_good rows (r ∷ []) (user_item session.tenant_id u) holds)
        (λ i. committed_good rows (r ∷ []) (sfdc_item session.tenant_id i) holds)

  pub update-view :
      view session.tenant_id (committed rows (update_with_state_check env session ∷ [])) ≡ (
        if counts session own
        then with_update env session (view session.tenant_id rows)
        else view session.tenant_id rows)
  update-view = elim (Bool-cases (counts session own)) [
    | inr bad ↦
        failed_view session.tenant_id rows (update_with_state_check env session ∷ [])
          (update-holds ∙ bad)
        ∙ rw bad refl
    | inl good ↦ elim (Option-cases own) [
      | inl e ↦ cc (subst (λ (old : Option Record). counts session old ≡ true) e good)
      | inr (row, e) ↦ updated-view row e good ∙ rw good refl
    ]
  ]

  pub delete-view : view session.tenant_id (committed rows (delete_requests session)) ≡ (
      if not (is_none own)
      then without session (view session.tenant_id rows)
      else view session.tenant_id rows)
  unfolding effect
  delete-view = elim (Bool-cases (not (is_none own))) [
    | inr bad ↦
        failed_view session.tenant_id rows (delete_requests session)
          (delete_holds rows session ∙ bad)
        ∙ rw bad refl
    | inl good ↦
        let rs = delete_requests session in
        let holds = delete_holds rows session ∙ good in
        same_tenant (view session.tenant_id (committed rows rs))
          (without session (view session.tenant_id rows))
          (λ i.
            committed_good rows rs (session_item session.tenant_id i) holds
            ∙ rw (session_eq session.tenant_id i session.session_id) refl)
          (λ u.
            committed_good rows rs (user_item session.tenant_id u) holds
            ∙ rw (user_eq session.tenant_id u session.user_id) refl)
          (λ i. committed_good rows rs (sfdc_item session.tenant_id i) holds)
        ∙ rw good refl
  ]

  pub remove-view :
      view session.tenant_id (committed rows (removal session))
      ≡ record (view session.tenant_id rows) {
        users = set_at (view session.tenant_id rows).users session.user_id none;
      }
  unfolding holds_on effect
  remove-view =
      let rs = removal session in
      let holds : all_hold rows rs ≡ true = elim (Option-cases users_own) [
        | inl e ↦ rw e refl
        | inr (row, e) ↦ rw e refl
      ] in
      same_tenant (view session.tenant_id (committed rows rs))
        (record (view session.tenant_id rows) {
          users = set_at (view session.tenant_id rows).users session.user_id none;
        })
        (λ i. committed_good rows rs (session_item session.tenant_id i) holds)
        (λ u.
          committed_good rows rs (user_item session.tenant_id u) holds
          ∙ rw (user_eq session.tenant_id u session.user_id) refl)
        (λ i. committed_good rows rs (sfdc_item session.tenant_id i) holds)
