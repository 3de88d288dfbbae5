-- ===== src/Events.antt =====
-- python/shim-service/src/events: the events of a tenant, and their records.
use shim_service.Base.{ℕ, ◌≡◌, refl, String, Option, some, [], ◌∷◌, ◌>>=◌, string_eq}
use shim_service.Base.Dict.{Dict, lookup}
use shim_service.Records.{Value, Record, as_int, as_text, get_text, or_null, get_text-or_null}
use shim_service.Session.Contexts.{build_value_table}

pub data EventType : Type 0 where
  session_created session_activated session_updated session_touched session_deleted : EventType
  push_notification presence_status_set work_accepted work_declined work_closed : EventType
  message_sent : EventType

abbrev pub event_value : EventType → String
event_value EventType.session_created = "SC"
event_value EventType.session_activated = "SA"
event_value EventType.session_updated = "SU"
event_value EventType.session_touched = "ST"
event_value EventType.session_deleted = "SD"
event_value EventType.push_notification = "PN"
event_value EventType.presence_status_set = "SS"
event_value EventType.work_accepted = "WA"
event_value EventType.work_declined = "WD"
event_value EventType.work_closed = "WC"
event_value EventType.message_sent = "MS"

abbrev pub event_table : Dict String EventType
event_table = build_value_table event_value (
    EventType.session_created ∷ EventType.session_activated ∷ EventType.session_updated
    ∷ EventType.session_touched ∷ EventType.session_deleted ∷ EventType.push_notification
    ∷ EventType.presence_status_set ∷ EventType.work_accepted ∷ EventType.work_declined
    ∷ EventType.work_closed ∷ EventType.message_sent ∷ [])

-- `none` is the `ValueError`.
unfoldable pub value_of : String → Option EventType
value_of s = lookup s event_table

-- The data of an event is its JSON text.
pub record Event : Type 0 where
  pub tenant_id : ℕ
  pub seq_no : ℕ
  pub event_type : EventType
  pub event_id : String
  pub event_data : Option String
  pub created_time : ℕ

unfoldable pub to_record : Event → Record
to_record e =
    ("tenantId", Value.int e.tenant_id)
    ∷ ("seqNo", Value.int e.seq_no)
    ∷ ("eventType", Value.str (event_value e.event_type))
    ∷ ("eventId", Value.str e.event_id)
    ∷ ("createdTime", Value.int e.created_time)
    ∷ ("eventData", or_null Value.str e.event_data)
    ∷ []

-- `none` where a field is missing, or holds a value that no event has there.
unfoldable pub from_record : Record → Option Event
from_record d = do
  tenant ← as_int (lookup "tenantId" d)
  seq_no ← as_int (lookup "seqNo" d)
  kind ← as_text (lookup "eventType" d)
  kind ← value_of kind
  event_id ← as_text (lookup "eventId" d)
  data_ ← get_text (lookup "eventData" d)
  created ← as_int (lookup "createdTime" d)
  some (record {
    tenant_id = tenant;
    seq_no = seq_no;
    event_type = kind;
    event_id = event_id;
    event_data = data_;
    created_time = created;
  })

event_value_back : (k : EventType) → value_of (event_value k) ≡ some k
unfolding value_of lookup
event_value_back EventType.session_created = refl
event_value_back EventType.session_activated = refl
event_value_back EventType.session_updated = refl
event_value_back EventType.session_touched = refl
event_value_back EventType.session_deleted = refl
event_value_back EventType.push_notification = refl
event_value_back EventType.presence_status_set = refl
event_value_back EventType.work_accepted = refl
event_value_back EventType.work_declined = refl
event_value_back EventType.work_closed = refl
event_value_back EventType.message_sent = refl

-- An event is read back from its record as it was.
from_record-to_record_event : (e : Event) → from_record (to_record e) ≡ some e
unfolding from_record to_record lookup
from_record-to_record_event e =
    rw (event_value_back e.event_type, get_text-or_null e.event_data) refl
