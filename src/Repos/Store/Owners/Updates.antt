-- ===== src/Repos/Store/Owners/Updates.antt =====
-- The owners of the sessions after an update, which patches a session's row.
use shim_service.Base.{
  ◌+◌, ◌≡◌, refl, sym, ap, ◌∙◌, ◌≢◌, ◌⊎◌, String, true, Option, some, [], ◌∷◌, Bool-cases,
  Option-cases, inl, inr, nat_eq, string_eq, pair_eq, beq_refl,
}
use shim_service.Base.Dict.{lookup, insert, lookup-insert}
use shim_service.Records.{Value, Record}
use shim_service.Session
use shim_service.Session.{Session, SessionKey, SessionStatus, status_value}
use shim_service.Repos.Database.{holds_on, effect, patched, Rows, all_hold, committed}
use shim_service.Repos.Store.{Surroundings, session_item, user_item, update_with_state_check}
use shim_service.Repos.Store.Owners.Writers.{session_ne, text-cases, user_field, status_field}
use shim_service.Repos.Store.Owners.{IsLive, IsOwned, committed_failed, IsOwned-kept, IsOwned-same}
use shim_service.Repos.Store.Owners.Patches.{first_of, lookup-patched}

-- Updating the session of the same user, and not one that failed unless it still fails.
abbrev pub UpdatesOwn : Session → Rows → Type 0
UpdatesOwn session rows =
    (row : Record)
    → rows (session_item session.tenant_id session.session_id) ≡ some row
    → (lookup "userId" row ≡ some (Value.str session.user_id))
      × ((session.status ≡ SessionStatus.failed) ⊎ IsLive row)

module _ (env : Surroundings) (session : Session) (rows : Rows)
    (good : all_hold rows (update_with_state_check env session ∷ []) ≡ true) where
  abbrev updated : Rows
  updated = committed rows (update_with_state_check env session ∷ [])

  abbrev next_record : Record
  next_record =
      insert "updateTime" (Value.int env.millis)
        (insert "stateCounter" (Value.int (session.state_counter + 1)) (Session.to_record session))

  updated_same :
      (r : Record)
      → rows (session_item session.tenant_id session.session_id) ≡ some r
      → updated (session_item session.tenant_id session.session_id) ≡ some (patched next_record r)
  unfolding committed effect
  updated_same r e =
      rw (good, beq_refl ⦃e = pair_eq⦄ (session_item session.tenant_id session.session_id), e) refl

  updated_other :
      (session_id : String)
      → session_id ≢ session.session_id
      → updated (session_item session.tenant_id session_id)
        ≡ rows (session_item session.tenant_id session_id)
  unfolding committed
  updated_other session_id ne =
      rw (good, session_ne session.tenant_id session_id session.session_id ne) refl

  updated_users :
      (user : String)
      → updated (user_item session.tenant_id user) ≡ rows (user_item session.tenant_id user)
  unfolding committed
  updated_users user = rw good refl

  updated_there : (r : Record) × (rows (session_item session.tenant_id session.session_id) ≡ some r)
  unfolding holds_on
  updated_there = elim (Option-cases (rows (session_item session.tenant_id session.session_id))) [
    | inl e ↦ cc (rw e at good)
    | inr found ↦ found
  ]

  next_user :
      (r : Record) → lookup "userId" (patched next_record r) ≡ some (Value.str session.user_id)
  next_user r =
      lookup-patched "userId" next_record r
      ∙ ap (λ (o : Option Value). first_of o (lookup "userId" r))
          (lookup-insert "userId" "updateTime" (Value.int env.millis) (
              insert "stateCounter" (Value.int (session.state_counter + 1))
                (Session.to_record session))
            ∙ lookup-insert "userId" "stateCounter" (Value.int (session.state_counter + 1))
                (Session.to_record session)
            ∙ user_field session)

  next_status :
      (r : Record)
      → lookup "sessionStatus" (patched next_record r)
        ≡ some (Value.str (status_value session.status))
  next_status r =
      lookup-patched "sessionStatus" next_record r
      ∙ ap (λ (o : Option Value). first_of o (lookup "sessionStatus" r))
          (lookup-insert "sessionStatus" "updateTime" (Value.int env.millis) (
              insert "stateCounter" (Value.int (session.state_counter + 1))
                (Session.to_record session))
            ∙ lookup-insert "sessionStatus" "stateCounter" (Value.int (session.state_counter + 1))
                (Session.to_record session)
            ∙ status_field session)

  after_update :
      UpdatesOwn session rows
      → (session_id : String) (row : Record)
      → updated (session_item session.tenant_id session_id) ≡ some row
      → IsLive row
      → (r : Record) × (rows (session_item session.tenant_id session_id) ≡ some r)
        × IsLive r
        × (lookup "userId" row ≡ lookup "userId" r)
  after_update own session_id row there live = elim (text-cases session_id session.session_id) [
    | inl same ↦
        let (r, e) = updated_there in
        let (mine, fine) = own r e in
        let new : patched next_record r ≡ row =
          cc (updated_same r e, there, ap (session_item session.tenant_id) same) in
        (
          r,
          ap (λ (x : String). rows (session_item session.tenant_id x)) same ∙ e,
          elim fine [
            | inl fails ↦
                absurd
                  (live (ap (lookup "sessionStatus") (sym new) ∙ next_status r ∙ rw fails refl))
            | inr was_live ↦ was_live
          ],
          ap (lookup "userId") (sym new) ∙ next_user r ∙ sym mine,
        )
    | inr other ↦ (row, sym (updated_other session_id other) ∙ there, live, refl)
  ]

pub update-IsOwned :
    (env : Surroundings) (session : Session) (rows : Rows)
    → UpdatesOwn session rows
    → IsOwned session.tenant_id rows
    → IsOwned session.tenant_id (committed rows (update_with_state_check env session ∷ []))
update-IsOwned env session rows own owned =
    let rs = update_with_state_check env session ∷ [] in
    elim (Bool-cases (all_hold rows rs)) [
      | inl good ↦
          IsOwned-kept session.tenant_id rows (committed rows rs)
            (after_update env session rows good own)
            (λ user u there. (u, updated_users env session rows good user ∙ there, refl)) owned
      | inr bad ↦
          IsOwned-same session.tenant_id rows (committed rows rs)
            (λ i. committed_failed rows rs (session_item session.tenant_id i) bad)
            (λ u. committed_failed rows rs (user_item session.tenant_id u) bad) owned
    ]
