-- ===== src/Session.antt =====
-- python/shim-service/src/session/__init__.py: sessions, their status and their records.
-- Times and the clock are epoch milliseconds; the clock is an argument.
pub mod RoundTrips
pub mod Contexts
pub mod Users
pub mod Tokens
pub mod Access
pub mod Manager
use shim_service.Base.{
  ℕ, zero, suc, String, Bool, true, false, ◌&&◌, not, Option, none, some, List, [], ◌∷◌, ◌≡◌, refl,
  ◌↔◌, if◌then◌else◌, Eq, ◌==◌, nat_eq, string_eq, option_eq, contains, arith, ◌>>=◌, ◌<◌, ◌⊎◌, inl,
  inr,
}
use shim_service.Base.Dict.{lookup, insert}
use shim_service.Records.{
  Value, Record, as_int, as_text, get_int, get_text, or_null, set_if_not_none, omni,
  serialize_platform_channels, deserialize_platform_channels,
}

pub data SessionStatus : Type 0 where
  pending active failed : SessionStatus

-- `status.value`
abbrev pub status_value : SessionStatus → String
status_value SessionStatus.pending = "P"
status_value SessionStatus.active = "A"
status_value SessionStatus.failed = "F"

-- `none` is the `NotImplementedError`.
unfoldable pub map_session_status : String → Option SessionStatus
map_session_status s =
    if s == "P"
    then some SessionStatus.pending
    else if s == "A"
    then some SessionStatus.active
    else if s == "F"
    then some SessionStatus.failed
    else none

abbrev pub same_status : SessionStatus → SessionStatus → Bool
same_status SessionStatus.pending SessionStatus.pending = true
same_status SessionStatus.active SessionStatus.active = true
same_status SessionStatus.failed SessionStatus.failed = true
same_status _ _ = false

pub same_status_iff : (a b : SessionStatus) → (same_status a b ≡ true) ↔ (a ≡ b)
same_status_iff SessionStatus.pending SessionStatus.pending = ground arith
same_status_iff SessionStatus.pending SessionStatus.active = ground arith
same_status_iff SessionStatus.pending SessionStatus.failed = ground arith
same_status_iff SessionStatus.active SessionStatus.pending = ground arith
same_status_iff SessionStatus.active SessionStatus.active = ground arith
same_status_iff SessionStatus.active SessionStatus.failed = ground arith
same_status_iff SessionStatus.failed SessionStatus.pending = ground arith
same_status_iff SessionStatus.failed SessionStatus.active = ground arith
same_status_iff SessionStatus.failed SessionStatus.failed = ground arith

instance abbrev pub status_eq : Eq SessionStatus
status_eq = record { beq = same_status; beq_iff = same_status_iff }

pub record SessionKey : Type 0 where
  pub tenant_id : ℕ
  pub session_id : String

pub record Session : Type 0 where
  pub org_id : String
  pub tenant_id : ℕ
  pub session_id : String
  pub time_created : ℕ
  pub user_id : String
  pub instance_url : String
  pub access_token : Option String
  pub fcm_device_token : Option String
  pub expiration_seconds : ℕ
  pub channel_platform_types : List String
  pub state_counter : ℕ
  pub update_time : ℕ
  pub status : SessionStatus
  pub failure_message : Option String
  pub expiration_time : Option ℕ

abbrev pub key_of : Session → SessionKey
key_of s = record { tenant_id = s.tenant_id; session_id = s.session_id }

-- `value or default`, for a number.
abbrev pub or_else : ℕ → ℕ → ℕ
or_else zero d = d
or_else (suc n) d = suc n

pub or_else_old : (n d : ℕ) → 0 < n → or_else n d ≡ n
or_else_old zero d h = ground arith
or_else_old (suc n) d h = refl

-- `Session.__init__`: its defaults for the two times.
unfoldable pub new_session : Session → ℕ → Session
new_session s now =
    let created = or_else s.time_created now in
    record s { time_created = created; update_time = or_else s.update_time created }

abbrev pub has_live_agent_polling : Session → Bool
has_live_agent_polling s = contains s.channel_platform_types omni

abbrev pub set_failed : Session → String → Session
set_failed s message = record s { status = SessionStatus.failed; failure_message = some message }

unfoldable pub can_replace_session : Session → Session → Bool
can_replace_session self new =
    (self.tenant_id == new.tenant_id)
    && (self.user_id == new.user_id)
    && (self.fcm_device_token == new.fcm_device_token)

-- `none` is the failed assertion.
unfoldable pub should_replace_session : Session → Session → Option Bool
should_replace_session self new =
    if can_replace_session self new
    then some (not (self.access_token == new.access_token))
    else none

-- The fields that every record has.
abbrev pub fixed_fields : Session → Record
fixed_fields s =
    ("orgId", Value.str s.org_id)
    ∷ ("tenantId", Value.int s.tenant_id)
    ∷ ("sessionId", Value.str s.session_id)
    ∷ ("timeCreated", Value.int s.time_created)
    ∷ ("userId", Value.str s.user_id)
    ∷ ("instanceUrl", Value.str s.instance_url)
    ∷ ("accessToken", or_null Value.str s.access_token)
    ∷ ("expSeconds", Value.int s.expiration_seconds)
    ∷ ("stateCounter", Value.int s.state_counter)
    ∷ ("updateTime", Value.int s.update_time)
    ∷ ("sessionStatus", Value.str (status_value s.status))
    ∷ ("expireTime", or_null Value.int s.expiration_time)
    ∷ []

unfoldable pub to_record : Session → Record
to_record s =
    let channels_too = serialize_platform_channels s.channel_platform_types (fixed_fields s) in
    let token_too = set_if_not_none channels_too "fcmDeviceToken" Value.str s.fcm_device_token in
    set_if_not_none token_too "failureMessage" Value.str s.failure_message

-- `none` where a field is missing, or holds a value that no session has there. A field whose value
-- is `None` counts as there.
unfoldable pub from_record : Record → ℕ → Option Session
from_record d now = do
  org ← as_text (lookup "orgId" d)
  tenant ← as_int (lookup "tenantId" d)
  session ← as_text (lookup "sessionId" d)
  created ← as_int (lookup "timeCreated" d)
  user ← as_text (lookup "userId" d)
  url ← as_text (lookup "instanceUrl" d)
  _ ← lookup "accessToken" d
  token ← get_text (lookup "accessToken" d)
  device ← get_text (lookup "fcmDeviceToken" d)
  seconds ← as_int (lookup "expSeconds" d)
  counter ← as_int (lookup "stateCounter" d)
  updated ← as_int (lookup "updateTime" d)
  status ← as_text (lookup "sessionStatus" d)
  status ← map_session_status status
  message ← get_text (lookup "failureMessage" d)
  expires ← get_int (lookup "expireTime" d)
  some (
      new_session
        (record {
          org_id = org;
          tenant_id = tenant;
          session_id = session;
          time_created = created;
          user_id = user;
          instance_url = url;
          access_token = token;
          fcm_device_token = device;
          expiration_seconds = seconds;
          channel_platform_types = deserialize_platform_channels d;
          state_counter = counter;
          update_time = updated;
          status = status;
          failure_message = message;
          expiration_time = expires;
        })
        now)

pub status-cases :
    (st : SessionStatus)
    → (st ≡ SessionStatus.pending) ⊎ ((st ≡ SessionStatus.active) ⊎ (st ≡ SessionStatus.failed))
status-cases SessionStatus.pending = inl refl
status-cases SessionStatus.active = inr (inl refl)
status-cases SessionStatus.failed = inr (inr refl)

-- The two conflicts of `verify_session_status`, with the message of the failure.
pub data Conflict : Type 0 where
  creation_in_progress : Conflict
  in_failed_state : Option String → Conflict

unfoldable pub verify_session_status : Session → Bool → Bool → Option Conflict
verify_session_status s pending_ok allow_failure =
    if s.status == SessionStatus.active
    then none
    else if (s.status == SessionStatus.pending) && not pending_ok
    then some Conflict.creation_in_progress
    else if (s.status == SessionStatus.failed) && not allow_failure
    then some (Conflict.in_failed_state s.failure_message)
    else none
