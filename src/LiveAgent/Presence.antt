-- ===== src/LiveAgent/Presence.antt =====
-- python/shim-service/src/services/sfdc/live_agent/__init__.py: an agent's statuses and session.
use shim_service.Base.{
  ℕ, ◌≡◌, refl, String, Bool, false, Option, some, [], ◌∷◌, ◌>>=◌, ◌==◌, string_eq, if◌then◌else◌,
}
use shim_service.Base.Dict.{lookup}
use shim_service.Records.{
  Value, Record, as_int, as_text, as_bool, bool_value, as_bool-bool_value, get_text,
  set_if_not_none, lookup-set_ne, get_text-set,
}

pub data StatusOption : Type 0 where
  online busy offline : StatusOption

abbrev pub option_value : StatusOption → String
option_value StatusOption.online = "online"
option_value StatusOption.busy = "busy"
option_value StatusOption.offline = "offline"

pub record PresenceStatus : Type 0 where
  pub id : String
  pub label : String
  pub status_option : StatusOption

-- `PresenceStatus.to_record`
unfoldable pub presence_record : PresenceStatus → Record
presence_record p =
    ("id", Value.str p.id)
    ∷ ("label", Value.str p.label)
    ∷ ("statusOption", Value.str (option_value p.status_option))
    ∷ []

pub record LiveAgentStatus : Type 0 where
  pub id : String
  pub label : String
  pub css_class : Option String
  pub has_channels : Bool
  pub is_offline : Bool

abbrev pub status_fields : LiveAgentStatus → Record
status_fields s =
    ("id", Value.str s.id)
    ∷ ("label", Value.str s.label)
    ∷ ("hasChannels", bool_value s.has_channels)
    ∷ ("isOffline", bool_value s.is_offline)
    ∷ []

-- `LiveAgentStatus.to_record` and `from_record`; none is a missing field or one of another type.
unfoldable pub status_to_record : LiveAgentStatus → Record
status_to_record s = set_if_not_none (status_fields s) "cssClass" Value.str s.css_class

unfoldable pub status_from_record : Record → Option LiveAgentStatus
status_from_record d = do
  id ← as_text (lookup "id" d)
  label ← as_text (lookup "label" d)
  css_class ← get_text (lookup "cssClass" d)
  has_channels ← as_bool (lookup "hasChannels" d)
  is_offline ← as_bool (lookup "isOffline" d)
  some (record {
    id = id;
    label = label;
    css_class = css_class;
    has_channels = has_channels;
    is_offline = is_offline;
  })

unfoldable pub to_presence_status : LiveAgentStatus → PresenceStatus
to_presence_status s = record {
  id = s.id;
  label = s.label;
  status_option =
      if s.is_offline
      then StatusOption.offline
      else if s.has_channels
      then StatusOption.online
      else StatusOption.busy;
}

pub record LiveAgentSession : Type 0 where
  pub key : String
  pub id : String
  pub client_poll_timeout : ℕ
  pub affinity_token : String

-- `LiveAgentSession.to_record` and `from_record`
unfoldable pub session_to_record : LiveAgentSession → Record
session_to_record s =
    ("key", Value.str s.key)
    ∷ ("id", Value.str s.id)
    ∷ ("clientPollTimeout", Value.int s.client_poll_timeout)
    ∷ ("affinityToken", Value.str s.affinity_token)
    ∷ []

unfoldable pub session_from_record : Record → Option LiveAgentSession
session_from_record d = do
  key ← as_text (lookup "key" d)
  id ← as_text (lookup "id" d)
  timeout ← as_int (lookup "clientPollTimeout" d)
  token ← as_text (lookup "affinityToken" d)
  some (record { key = key; id = id; client_poll_timeout = timeout; affinity_token = token })

-- A status and a session of an agent are read back from their records as they were.
presence_records_back :
    (s : LiveAgentStatus) (t : LiveAgentSession)
    → (status_from_record (status_to_record s) ≡ some s)
      × (session_from_record (session_to_record t) ≡ some t)
unfolding status_from_record status_to_record session_from_record session_to_record lookup
presence_records_back s t =
    let skip = λ (k : String) (h : (k == "cssClass") ≡ false).
      lookup-set_ne (status_fields s) "cssClass" k Value.str s.css_class h in
    (
      rw
          (
            skip "id" refl,
            skip "label" refl,
            skip "hasChannels" refl,
            skip "isOffline" refl,
            get_text-set (status_fields s) "cssClass" s.css_class refl,
            as_bool-bool_value s.has_channels,
            as_bool-bool_value s.is_offline,
          )
          refl,
      refl,
    )
