-- ===== src/Repos/Store/Owners/Writers.antt =====
-- The owners of the sessions after one is created, or deleted.
use shim_service.Base.{
  ℕ, ◌≡◌, refl, sym, ap, ◌∙◌, ◌≢◌, ◌⊎◌, String, true, false, none, some, Bool-cases, Option-cases,
  inl, inr, ◌==◌, nat_eq, string_eq, pair_eq, beq_refl,
}
use shim_service.Base.Dict.{lookup, insert}
use shim_service.Records.{Value, Record}
use shim_service.Session
use shim_service.Session.{Session, SessionKey, SessionStatus, status_value}
use shim_service.Session.RoundTrips.{field}
use shim_service.Session.Users
use shim_service.Session.Users.{to_user_session}
use shim_service.Repos.Database.{ItemKey, holds_on, effect, Rows, all_hold, committed}
use shim_service.Repos.Store.{Surroundings, session_item, user_item, expires, delete_requests}
use shim_service.Repos.Store.Writes.{item_ne}
use shim_service.Repos.Store.Creates.{timed, requests_for}
use shim_service.Repos.Store.Logins.{session_row, other_row, users_row}
use shim_service.Repos.Store.Owners.{HasOwner, IsOwned, committed_failed, IsOwned-same}

-- Keys of one table differ in their names.
pub session_ne :
    (tenant_id : ℕ) (i j : String)
    → i ≢ j
    → (session_item tenant_id i == session_item tenant_id j) ≡ false
session_ne tenant_id i j h =
    item_ne (session_item tenant_id i) (session_item tenant_id j)
      (λ same. h (ap (λ (k : ItemKey). k.1.0) same))

pub user_ne :
    (tenant_id : ℕ) (i j : String)
    → i ≢ j
    → (user_item tenant_id i == user_item tenant_id j) ≡ false
user_ne tenant_id i j h =
    item_ne (user_item tenant_id i) (user_item tenant_id j)
      (λ same. h (ap (λ (k : ItemKey). k.1.0) same))

pub text-cases : (a b : String) → (a ≡ b) ⊎ (a ≢ b)
text-cases a b = elim (Bool-cases (a == b)) [
  | inl same ↦ inl ((string_eq.beq_iff a b).0 same)
  | inr other ↦ inr (λ e. cc (other, (string_eq.beq_iff a b).1 e))
]

-- The fields of a new session's rows that tell whose it is.
pub user_field :
    (session : Session)
    → lookup "userId" (Session.to_record session) ≡ some (Value.str session.user_id)
unfolding lookup
user_field session = field session "userId" refl refl refl

pub status_field :
    (session : Session)
    → lookup "sessionStatus" (Session.to_record session)
      ≡ some (Value.str (status_value session.status))
unfolding lookup
status_field session = field session "sessionStatus" refl refl refl

named_session :
    (session : Session) (expire_time : ℕ)
    → lookup "sessionId"
        (insert "expireTime" (Value.int expire_time) (Users.to_record (to_user_session session)))
      ≡ some (Value.str session.session_id)
unfolding lookup insert Users.to_record to_user_session
named_session session expire_time = refl

module _ (env : Surroundings) (session : Session) (rows : Rows)
    (no_session : rows (session_item session.tenant_id session.session_id) ≡ none)
    (no_user : rows (user_item session.tenant_id session.user_id) ≡ none) where
  created_users :
      (user : String)
      → user ≢ session.user_id
      → committed rows (requests_for env session) (user_item session.tenant_id user)
        ≡ rows (user_item session.tenant_id user)
  unfolding committed holds_on
  created_users user ne =
      rw (user_ne session.tenant_id user session.user_id ne, no_session, no_user) refl

  created :
      IsOwned session.tenant_id rows
      → IsOwned session.tenant_id (committed rows (requests_for env session))
  created owned session_id row there live = elim (text-cases session_id session.session_id) [
    | inl same ↦
        let new : Session.to_record (timed env session) ≡ row = cc (
          session_row rows env session no_session no_user,
          there,
          ap (session_item session.tenant_id) same,
        ) in
        (
          session.user_id,
          insert "expireTime" (Value.int (expires env session.expiration_seconds))
              (Users.to_record (to_user_session (timed env session))),
          ap (lookup "userId") (sym new) ∙ user_field (timed env session),
          users_row rows env session no_session no_user,
          named_session (timed env session) (expires env session.expiration_seconds)
              ∙ ap (λ (x : String). some (Value.str x)) (sym same),
        )
    | inr other ↦
        let was = sym (other_row rows env session no_session no_user session_id other) ∙ there in
        kept_owner session_id row (owned session_id row was live)
  ]
    where
      kept_owner :
          (session_id : String) (row : Record)
          → HasOwner session.tenant_id rows session_id row
          → HasOwner session.tenant_id (committed rows (requests_for env session)) session_id row
      kept_owner session_id row (user, u, is_user, user_row, names) =
          (user, u, is_user, created_users user (λ e. cc (e, user_row, no_user)) ∙ user_row, names)

all_hold_create :
    (env : Surroundings) (session : Session) (rows : Rows)
    → all_hold rows (requests_for env session) ≡ true
    → (rows (session_item session.tenant_id session.session_id) ≡ none)
      × (rows (user_item session.tenant_id session.user_id) ≡ none)
unfolding holds_on
all_hold_create env session rows h =
    elim (Option-cases (rows (session_item session.tenant_id session.session_id))) [
      | inr (r, e) ↦ cc (rw e at h)
      | inl no_session ↦ elim (Option-cases (rows (user_item session.tenant_id session.user_id))) [
        | inr (u, e) ↦ cc (rw (no_session, e) at h)
        | inl no_user ↦ (no_session, no_user)
      ]
    ]

pub create-IsOwned :
    (env : Surroundings) (session : Session) (rows : Rows)
    → IsOwned session.tenant_id rows
    → IsOwned session.tenant_id (committed rows (requests_for env session))
create-IsOwned env session rows owned =
    elim (Bool-cases (all_hold rows (requests_for env session))) [
      | inl good ↦
          let (no_session, no_user) = all_hold_create env session rows good in
          created env session rows no_session no_user owned
      | inr bad ↦
          IsOwned-same session.tenant_id rows (committed rows (requests_for env session))
            (λ i.
              committed_failed rows (requests_for env session) (session_item session.tenant_id i)
                bad)
            (λ u.
              committed_failed rows (requests_for env session) (user_item session.tenant_id u) bad)
            owned
    ]

-- Deleting the session that the user's row names, if there are the two rows.
abbrev pub DeletesOwn : Session → Rows → Type 0
DeletesOwn session rows =
    (row u : Record)
    → rows (session_item session.tenant_id session.session_id) ≡ some row
    → rows (user_item session.tenant_id session.user_id) ≡ some u
    → lookup "sessionId" u ≡ some (Value.str session.session_id)

module _ (session : Session) (rows : Rows)
    (good : all_hold rows (delete_requests session) ≡ true) where
  deleted :
      committed rows (delete_requests session) (session_item session.tenant_id session.session_id)
      ≡ none
  unfolding committed effect
  deleted =
      rw (good, beq_refl ⦃e = pair_eq⦄ (session_item session.tenant_id session.session_id)) refl

  undeleted :
      (session_id : String)
      → session_id ≢ session.session_id
      → committed rows (delete_requests session) (session_item session.tenant_id session_id)
        ≡ rows (session_item session.tenant_id session_id)
  unfolding committed
  undeleted session_id ne =
      rw (good, session_ne session.tenant_id session_id session.session_id ne) refl

  undeleted_users :
      (user : String)
      → user ≢ session.user_id
      → committed rows (delete_requests session) (user_item session.tenant_id user)
        ≡ rows (user_item session.tenant_id user)
  unfolding committed
  undeleted_users user ne = rw (good, user_ne session.tenant_id user session.user_id ne) refl

  was_there : (row : Record) × (rows (session_item session.tenant_id session.session_id) ≡ some row)
  unfolding holds_on
  was_there = elim (Option-cases (rows (session_item session.tenant_id session.session_id))) [
    | inl e ↦ cc (rw e at good)
    | inr found ↦ found
  ]

  delete_good :
      DeletesOwn session rows
      → IsOwned session.tenant_id rows
      → IsOwned session.tenant_id (committed rows (delete_requests session))
  delete_good own owned session_id row there live =
      elim (text-cases session_id session.session_id) [
        | inl same ↦ cc (deleted, there, ap (session_item session.tenant_id) same)
        | inr other ↦
            let was = sym (undeleted session_id other) ∙ there in
            kept_owner session_id row other (owned session_id row was live)
      ]
    where
      kept_owner :
          (session_id : String) (row : Record)
          → session_id ≢ session.session_id
          → HasOwner session.tenant_id rows session_id row
          → HasOwner session.tenant_id (committed rows (delete_requests session)) session_id row
      kept_owner session_id row other (user, u, is_user, user_row, names) = (
        user,
        u,
        is_user,
        undeleted_users user (λ e.
              let mine =
                own was_there.0 u was_there.1
                  (ap (λ (x : String). rows (user_item session.tenant_id x)) (sym e) ∙ user_row) in
              other (cc (mine, names)))
            ∙ user_row,
        names,
      )

pub delete-IsOwned :
    (session : Session) (rows : Rows)
    → DeletesOwn session rows
    → IsOwned session.tenant_id rows
    → IsOwned session.tenant_id (committed rows (delete_requests session))
delete-IsOwned session rows own owned =
    elim (Bool-cases (all_hold rows (delete_requests session))) [
      | inl good ↦ delete_good session rows good own owned
      | inr bad ↦
          IsOwned-same session.tenant_id rows (committed rows (delete_requests session))
            (λ i.
              committed_failed rows (delete_requests session) (session_item session.tenant_id i)
                bad)
            (λ u.
              committed_failed rows (delete_requests session) (user_item session.tenant_id u) bad)
            owned
    ]
