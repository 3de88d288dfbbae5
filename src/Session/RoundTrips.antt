-- ===== src/Session/RoundTrips.antt =====
-- What a session keeps when it is written to a record and read back.
use text.Mathlib.Text.{starts_with}
use shim_service.Base.{
  ℕ, ◌<◌, String, false, none, some, ◌≡◌, refl, ◌==◌, nat_eq, string_eq, option_eq, arith, ◌∙◌, ap,
}
use shim_service.Base.Dict.{lookup}
use shim_service.Records.{
  Value, Record, get_text, set_if_not_none, channels, members_of, serialize_platform_channels,
  deserialize_platform_channels, lookup-serialize_plain, channels_set_lem, channel_key,
  is_true-serialize, channel_ne, lookup-set_ne, get_text-set, get_text-or_null, get_int-or_null,
}
use shim_service.Session.{
  SessionStatus, Session, fixed_fields, to_record, from_record, map_session_status, status_value,
  new_session, or_else_old,
}

map_session_status-value : (st : SessionStatus) → map_session_status (status_value st) ≡ some st
unfolding map_session_status
map_session_status-value SessionStatus.pending = refl
map_session_status-value SessionStatus.active = refl
map_session_status-value SessionStatus.failed = refl

-- The two records on the way to `to_record`.
abbrev channels_too : Session → Record
channels_too s = serialize_platform_channels s.channel_platform_types (fixed_fields s)

abbrev token_too : Session → Record
token_too s = set_if_not_none (channels_too s) "fcmDeviceToken" Value.str s.fcm_device_token

-- What the two optional fields leave alone.
lookup-to_record :
    (s : Session) (k : String)
    → (k == "fcmDeviceToken") ≡ false
    → (k == "failureMessage") ≡ false
    → lookup k (to_record s) ≡ lookup k (channels_too s)
unfolding to_record
lookup-to_record s k no_token no_message =
    lookup-set_ne (token_too s) "failureMessage" k Value.str s.failure_message no_message
    ∙ lookup-set_ne (channels_too s) "fcmDeviceToken" k Value.str s.fcm_device_token no_token

-- A field that every record has is read as it was written.
pub field :
    (s : Session) (k : String)
    → starts_with k "pt_" ≡ false
    → (k == "fcmDeviceToken") ≡ false
    → (k == "failureMessage") ≡ false
    → lookup k (to_record s) ≡ lookup k (fixed_fields s)
field s k plain no_token no_message =
    lookup-to_record s k no_token no_message
    ∙ lookup-serialize_plain k s.channel_platform_types (fixed_fields s) plain

device_field :
    (s : Session) → get_text (lookup "fcmDeviceToken" (to_record s)) ≡ some s.fcm_device_token
unfolding to_record lookup
device_field s =
    rw
      (lookup-set_ne (token_too s) "failureMessage" "fcmDeviceToken" Value.str s.failure_message
        refl)
      (get_text-set (channels_too s) "fcmDeviceToken" s.fcm_device_token
        (lookup-serialize_plain "fcmDeviceToken" s.channel_platform_types (fixed_fields s) refl))

message_field :
    (s : Session) → get_text (lookup "failureMessage" (to_record s)) ≡ some s.failure_message
unfolding to_record lookup
message_field s = get_text-set (token_too s) "failureMessage" s.failure_message (
    lookup-set_ne (channels_too s) "fcmDeviceToken" "failureMessage" Value.str s.fcm_device_token
      refl
    ∙ lookup-serialize_plain "failureMessage" s.channel_platform_types (fixed_fields s) refl)

no_channel : (s : Session) (c : String) → lookup (channel_key c) (fixed_fields s) ≡ none
unfolding lookup
no_channel s c =
    rw
      (
        channel_ne "orgId" c refl,
        channel_ne "tenantId" c refl,
        channel_ne "sessionId" c refl,
        channel_ne "timeCreated" c refl,
        channel_ne "userId" c refl,
        channel_ne "instanceUrl" c refl,
        channel_ne "accessToken" c refl,
        channel_ne "expSeconds" c refl,
        channel_ne "stateCounter" c refl,
        channel_ne "updateTime" c refl,
        channel_ne "sessionStatus" c refl,
        channel_ne "expireTime" c refl,
      )
      refl

channels_field :
    (s : Session)
    → deserialize_platform_channels (to_record s) ≡ members_of s.channel_platform_types channels
unfolding deserialize_platform_channels
channels_field s = channels_set_lem s.channel_platform_types channels (to_record s) (λ c.
    rw
      (
        lookup-to_record s (channel_key c) (channel_ne "fcmDeviceToken" c refl)
            (channel_ne "failureMessage" c refl),
        is_true-serialize c s.channel_platform_types (fixed_fields s),
        no_channel s c,
      )
      (ground arith))

new_session_old :
    (s : Session) (now : ℕ) → 0 < s.time_created → 0 < s.update_time → new_session s now ≡ s
unfolding new_session
new_session_old s now h k =
    rw (or_else_old s.time_created now h, or_else_old s.update_time s.time_created k) refl

-- A session that has its two times is read back from its record as it was, but for its channels,
-- which are the registered ones among them, in the order of their registration.
pub from_record-to_record :
    (s : Session) (now : ℕ)
    → 0 < s.time_created
    → 0 < s.update_time
    → from_record (to_record s) now
      ≡ some (record s { channel_platform_types = members_of s.channel_platform_types channels })
unfolding from_record lookup
from_record-to_record s now h k =
    let kept : Session = record s {
      channel_platform_types = members_of s.channel_platform_types channels;
    } in
    rw
      (
        field s "orgId" refl refl refl,
        field s "tenantId" refl refl refl,
        field s "sessionId" refl refl refl,
        field s "timeCreated" refl refl refl,
        field s "userId" refl refl refl,
        field s "instanceUrl" refl refl refl,
        field s "accessToken" refl refl refl,
        field s "expSeconds" refl refl refl,
        field s "stateCounter" refl refl refl,
        field s "updateTime" refl refl refl,
        field s "sessionStatus" refl refl refl,
        field s "expireTime" refl refl refl,
        device_field s,
        message_field s,
        channels_field s,
        map_session_status-value s.status,
        get_text-or_null s.access_token,
        get_int-or_null s.expiration_time,
      )
      (ap some (new_session_old kept now h k))
