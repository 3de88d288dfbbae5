-- ===== src/Repos/Store/Owners/Orphans.antt =====
-- The owners of the sessions after the row of a user is removed whose session is gone.
use shim_service.Base.{
  ◌≡◌, refl, sym, ap, ◌∙◌, ◌≢◌, String, false, some, List, [], ◌∷◌, nat_eq, string_eq, pair_eq,
}
use shim_service.Base.Dict.{lookup}
use shim_service.Records.{Value, Record}
use shim_service.Session.{Session}
use shim_service.Repos.Database.{Request, Rows, committed}
use shim_service.Repos.Store.{session_item, user_item}
use shim_service.Repos.Store.Writes.{committed_other}
use shim_service.Repos.Store.Owners.Writers.{user_ne}
use shim_service.Repos.Store.Owners.{IsLive, HasOwner, IsOwned}

-- The user's row names no session, or one that failed.
abbrev pub IsOrphan : Session → Rows → Type 0
IsOrphan session rows =
    (u : Record) (session_id : String) (row : Record)
    → rows (user_item session.tenant_id session.user_id) ≡ some u
    → lookup "sessionId" u ≡ some (Value.str session_id)
    → rows (session_item session.tenant_id session_id) ≡ some row
    → IsLive row
    → ⊥

abbrev pub removal : Session → List Request
removal session = Request.delete (user_item session.tenant_id session.user_id) false ∷ []

removed_users :
    (session : Session) (rows : Rows) (user : String)
    → user ≢ session.user_id
    → committed rows (removal session) (user_item session.tenant_id user)
      ≡ rows (user_item session.tenant_id user)
removed_users session rows user ne =
    committed_other rows (removal session) (user_item session.tenant_id user)
      (user_ne session.tenant_id user session.user_id ne, tt)

removed_sessions :
    (session : Session) (rows : Rows) (session_id : String)
    → committed rows (removal session) (session_item session.tenant_id session_id)
      ≡ rows (session_item session.tenant_id session_id)
removed_sessions session rows session_id =
    committed_other rows (removal session) (session_item session.tenant_id session_id) (refl, tt)

pub remove-IsOwned :
    (session : Session) (rows : Rows)
    → IsOrphan session rows
    → IsOwned session.tenant_id rows
    → IsOwned session.tenant_id (committed rows (removal session))
remove-IsOwned session rows orphan owned session_id row there live =
    let was = sym (removed_sessions session rows session_id) ∙ there in
    moved session_id row was live (owned session_id row was live)
  where
    moved :
        (session_id : String) (row : Record)
        → rows (session_item session.tenant_id session_id) ≡ some row
        → IsLive row
        → HasOwner session.tenant_id rows session_id row
        → HasOwner session.tenant_id (committed rows (removal session)) session_id row
    moved session_id row was live (user, u, is_user, user_row, names) = (
      user,
      u,
      is_user,
      removed_users session rows user (λ e.
            orphan u session_id row
              (ap (λ (x : String). rows (user_item session.tenant_id x)) (sym e) ∙ user_row) names
              was live)
          ∙ user_row,
      names,
    )
