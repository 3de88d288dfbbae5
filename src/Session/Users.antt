-- ===== src/Session/Users.antt =====
-- python/shim-service/src/session/__init__.py: the session that a user has, and its record.
use shim_service.Base.{
  ℕ, String, Bool, ◌&&◌, Option, some, [], ◌∷◌, ◌≡◌, refl, ◌==◌, nat_eq, string_eq, option_eq,
  ◌>>=◌,
}
use shim_service.Base.Dict.{lookup}
use shim_service.Records.{Value, Record, as_int, as_text, get_text, or_null, get_text-or_null}
use shim_service.Session.{Session}

pub record UserSession : Type 0 where
  pub tenant_id : ℕ
  pub user_id : String
  pub session_id : String
  pub fcm_device_token : Option String
  pub time_created : ℕ

unfoldable pub to_record : UserSession → Record
to_record u =
    ("tenantId", Value.int u.tenant_id)
    ∷ ("userId", Value.str u.user_id)
    ∷ ("sessionId", Value.str u.session_id)
    ∷ ("fcmDeviceToken", or_null Value.str u.fcm_device_token)
    ∷ ("timeCreated", Value.int u.time_created)
    ∷ []

-- `none` where a field is missing, or holds a value that no user session has there.
unfoldable pub from_record : Record → Option UserSession
from_record d = do
  tenant ← as_int (lookup "tenantId" d)
  user ← as_text (lookup "userId" d)
  session ← as_text (lookup "sessionId" d)
  _ ← lookup "fcmDeviceToken" d
  device ← get_text (lookup "fcmDeviceToken" d)
  created ← as_int (lookup "timeCreated" d)
  some (record {
    tenant_id = tenant;
    user_id = user;
    session_id = session;
    fcm_device_token = device;
    time_created = created;
  })

-- `UserSession.__eq__`
unfoldable pub same_user_session : UserSession → UserSession → Bool
same_user_session a b =
    (a.tenant_id == b.tenant_id)
    && (a.user_id == b.user_id)
    && (a.session_id == b.session_id)
    && (a.fcm_device_token == b.fcm_device_token)
    && (a.time_created == b.time_created)

unfoldable pub to_user_session : Session → UserSession
to_user_session s = record {
  tenant_id = s.tenant_id;
  user_id = s.user_id;
  session_id = s.session_id;
  fcm_device_token = s.fcm_device_token;
  time_created = s.time_created;
}

-- A user session is read back from its record as it was.
pub from_record-to_record_user : (u : UserSession) → from_record (to_record u) ≡ some u
unfolding from_record to_record lookup
from_record-to_record_user u = rw (get_text-or_null u.fcm_device_token) refl
