-- ===== src/Repos/Store/Owners.antt =====
-- Whose session is whose: what the rows of users say of the sessions that have not failed.
pub mod Writers
pub mod Patches
pub mod Updates
pub mod Orphans
pub mod Runs
use shim_service.Base.{
  ℕ, zero, suc, ◌≡◌, refl, sym, ap, ◌∙◌, ◌≢◌, String, Bool, true, false, Option, none, some, List,
  [], ◌∷◌, arith, Bool-cases, Option-cases, inl, inr, if◌then◌else◌, ◌==◌, nat_eq, string_eq,
  pair_eq, subst,
}
use shim_service.Base.Dict.{lookup, insert, lookup-insert}
use shim_service.Records.{Value, Record}
use shim_service.Repos.Database.{
  ItemKey, Request, item_key, holds_on, effect, patched, Rows, all_hold, applied, committed,
}
use shim_service.Repos.Store.{session_item, user_item}

-- A session's row that does not say it failed.
abbrev pub IsLive : Record → Type 0
IsLive row = lookup "sessionStatus" row ≢ some (Value.str "F")

-- The row of the session's user names the session.
abbrev pub HasOwner : ℕ → Rows → String → Record → Type 0
HasOwner tenant_id rows session_id row =
    (user : String) × (u : Record) × (lookup "userId" row ≡ some (Value.str user))
    × (rows (user_item tenant_id user) ≡ some u)
    × (lookup "sessionId" u ≡ some (Value.str session_id))

-- That every session that has not failed has its owner.
abbrev pub IsOwned : ℕ → Rows → Type 0
IsOwned tenant_id rows =
    (session_id : String) (row : Record)
    → rows (session_item tenant_id session_id) ≡ some row
    → IsLive row
    → HasOwner tenant_id rows session_id row

-- That a user has at most one session that has not failed.
abbrev pub OneEach : ℕ → Rows → Type 0
OneEach tenant_id rows =
    (i j : String) (a b : Record) (user : String)
    → rows (session_item tenant_id i) ≡ some a
    → rows (session_item tenant_id j) ≡ some b
    → IsLive a
    → IsLive b
    → lookup "userId" a ≡ some (Value.str user)
    → lookup "userId" b ≡ some (Value.str user)
    → i ≡ j

pub IsOwned-OneEach :
    (tenant_id : ℕ) (rows : Rows) → IsOwned tenant_id rows → OneEach tenant_id rows
IsOwned-OneEach tenant_id rows owned i j a b user ha hb la lb ua ub =
    let (m, u, m_is, m_row, m_names) = owned i a ha la in
    let (n, w, n_is, n_row, n_names) = owned j b hb lb in
    let m_user : m ≡ user = cc (m_is, ua) in
    let n_user : n ≡ user = cc (n_is, ub) in
    let same : rows (user_item tenant_id m) ≡ rows (user_item tenant_id n) =
      ap (λ (x : String). rows (user_item tenant_id x)) (m_user ∙ sym n_user) in
    cc (m_row, n_row, m_names, n_names, same)

pub committed_failed :
    (rows : Rows) (rs : List Request) (k : ItemKey)
    → all_hold rows rs ≡ false
    → committed rows rs k ≡ rows k
unfolding committed
committed_failed rows rs k h = rw h refl

-- Where the sessions' rows keep their user, and fail or stay as they were, and the users' rows keep
-- the session that they name, sessions keep their owners.
pub IsOwned-kept :
    (tenant_id : ℕ) (old new : Rows)
    → ((session_id : String) (row : Record)
        → new (session_item tenant_id session_id) ≡ some row
        → IsLive row
        → (r : Record) × (old (session_item tenant_id session_id) ≡ some r)
          × IsLive r
          × (lookup "userId" row ≡ lookup "userId" r))
    → ((user : String) (u : Record)
        → old (user_item tenant_id user) ≡ some u
        → (w : Record) × (new (user_item tenant_id user) ≡ some w)
          × (lookup "sessionId" w ≡ lookup "sessionId" u))
    → IsOwned tenant_id old
    → IsOwned tenant_id new
IsOwned-kept tenant_id old new sessions users owned session_id row there live =
    let (r, was, was_live, same_user) = sessions session_id row there live in
    let (user, u, is_user, user_row, names) = owned session_id r was was_live in
    let (w, is_row, same_session) = users user u user_row in
    (user, w, same_user ∙ is_user, is_row, same_session ∙ names)

pub IsOwned-same :
    (tenant_id : ℕ) (old new : Rows)
    → ((session_id : String)
        → new (session_item tenant_id session_id) ≡ old (session_item tenant_id session_id))
    → ((user : String) → new (user_item tenant_id user) ≡ old (user_item tenant_id user))
    → IsOwned tenant_id old
    → IsOwned tenant_id new
IsOwned-same tenant_id old new sessions users =
    IsOwned-kept tenant_id old new
      (λ session_id row there live. (row, sym (sessions session_id) ∙ there, live, refl))
      (λ user u there. (u, users user ∙ there, refl))
