-- ===== src/PendingEvents.antt =====
-- python/shim-service/src/pending_event/__init__.py: what a session waits for, and its record.
use shim_service.Base.{
  ℕ, ◌<◌, ◌≡◌, refl, String, Option, none, some, [], ◌∷◌, ◌>>=◌, ◌==◌, string_eq, if◌then◌else◌,
}
use shim_service.Base.Dict.{lookup}
use shim_service.Records.{
  Value, Record, as_int, as_text, get_text, get_int, or_null, get_text-or_null,
}
use shim_service.Session.{or_else, or_else_old}

pub data PendingEventType : Type 0 where
  live_agent_poll : PendingEventType

abbrev pub event_type_value : PendingEventType → String
event_type_value PendingEventType.live_agent_poll = "lap"

-- `none` is the `ValueError`.
abbrev pub value_of : String → Option PendingEventType
value_of value = if value == "lap" then some PendingEventType.live_agent_poll else none

pub record PendingEvent : Type 0 where
  pub event_type : PendingEventType
  pub event_time : ℕ
  pub tenant_id : ℕ
  pub session_id : String
  pub user_id : Option String
  pub active_at : ℕ
  pub update_time : ℕ

-- `PendingEvent.__init__`, where 0 is a time that is not given.
unfoldable pub new_pending_event : PendingEvent → ℕ → PendingEvent
new_pending_event e now =
    let event_time = or_else e.event_time now in
    record e {
      event_time = event_time;
      active_at = or_else e.active_at event_time;
      update_time = or_else e.update_time event_time;
    }

unfoldable pub to_record : PendingEvent → Record
to_record e =
    ("eventType", Value.str (event_type_value e.event_type))
    ∷ ("eventTime", Value.int e.event_time)
    ∷ ("tenantId", Value.int e.tenant_id)
    ∷ ("sessionId", Value.str e.session_id)
    ∷ ("userId", or_null Value.str e.user_id)
    ∷ ("activeAt", Value.int e.active_at)
    ∷ ("updateTime", Value.int e.update_time)
    ∷ []

abbrev or_zero : Option ℕ → ℕ
or_zero none = 0
or_zero (some n) = n

-- `none` where a field is missing, or holds a value that no event has there.
unfoldable pub from_record : Record → ℕ → Option PendingEvent
from_record d now = do
  kind ← as_text (lookup "eventType" d)
  kind ← value_of kind
  tenant ← as_int (lookup "tenantId" d)
  session ← as_text (lookup "sessionId" d)
  user ← get_text (lookup "userId" d)
  event_time ← as_int (lookup "eventTime" d)
  active_at ← as_int (lookup "activeAt" d)
  updated ← get_int (lookup "updateTime" d)
  some (
      new_pending_event
        (record {
          event_type = kind;
          event_time = event_time;
          tenant_id = tenant;
          session_id = session;
          user_id = user;
          active_at = active_at;
          update_time = or_zero updated;
        })
        now)

pub value_of-event : (k : PendingEventType) → value_of (event_type_value k) ≡ some k
value_of-event PendingEventType.live_agent_poll = refl

-- A pending event that has its times is read back from its record as it was.
pub from_record-to_record_pending :
    (e : PendingEvent) (now : ℕ)
    → 0 < e.event_time
    → 0 < e.active_at
    → 0 < e.update_time
    → from_record (to_record e) now ≡ some e
unfolding from_record to_record lookup new_pending_event
from_record-to_record_pending e now timed active updated =
    rw
      (
        value_of-event e.event_type,
        get_text-or_null e.user_id,
        or_else_old e.event_time now timed,
        or_else_old e.active_at e.event_time active,
        or_else_old e.update_time e.event_time updated,
      )
      refl
