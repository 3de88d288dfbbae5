-- ===== src/Session/Contexts.antt =====
-- python/shim-service/src/session/__init__.py: the contexts that a session's parts keep.
use shim_service.Base.{
  ℕ, ◌<◌, String, Option, none, some, List, [], ◌∷◌, ◌≡◌, refl, if◌then◌else◌, Eq, ◌==◌, nat_eq,
  string_eq, ◌>>=◌,
}
use shim_service.Base.Dict.{Dict, lookup}
use shim_service.Records.{Value, Record, as_int, as_text, as_bytes, omni}
use shim_service.Session.{or_else, or_else_old}

pub data ContextType : Type 0 where
  web live_agent push_notifier : ContextType

abbrev pub context_value : ContextType → String
context_value ContextType.web = "W"
context_value ContextType.live_agent = "L"
context_value ContextType.push_notifier = "P"

-- `build_value_table` over the members in their order, and the table that `value_of` builds of it.
abbrev pub build_value_table {ℓ} : {A : Type ℓ} → (A → String) → List A → Dict String A
build_value_table value [] = []
build_value_table value (a ∷ as_) = (value a, a) ∷ build_value_table value as_

abbrev pub reverse_table : Dict String ContextType
reverse_table =
    build_value_table context_value
      (ContextType.web ∷ ContextType.live_agent ∷ ContextType.push_notifier ∷ [])

-- `none` is the `ValueError`.
unfoldable pub value_of : String → Option ContextType
value_of s = lookup s reverse_table

-- `none` is the `ValueError`: no other context has a platform.
abbrev pub to_platform_channel : ContextType → Option String
to_platform_channel ContextType.live_agent = some omni
to_platform_channel _ = none

pub record SessionContext : Type 0 where
  pub tenant_id : ℕ
  pub session_id : String
  pub user_id : String
  pub context_type : ContextType
  pub session_data : List ℕ
  pub update_time : ℕ

-- `SessionContext.__init__`
unfoldable pub new_context : SessionContext → ℕ → SessionContext
new_context c now = record c { update_time = or_else c.update_time now }

unfoldable pub to_record : SessionContext → Record
to_record c =
    ("tenantId", Value.int c.tenant_id)
    ∷ ("sessionId", Value.str c.session_id)
    ∷ ("userId", Value.str c.user_id)
    ∷ ("contextType", Value.str (context_value c.context_type))
    ∷ ("sessionData", Value.bytes c.session_data)
    ∷ ("updateTime", Value.int c.update_time)
    ∷ []

-- `none` where a field is missing, or holds a value that no context has there.
unfoldable pub from_record : Record → ℕ → Option SessionContext
from_record d now = do
  tenant ← as_int (lookup "tenantId" d)
  session ← as_text (lookup "sessionId" d)
  user ← as_text (lookup "userId" d)
  kind ← as_text (lookup "contextType" d)
  kind ← value_of kind
  data_ ← as_bytes (lookup "sessionData" d)
  updated ← as_int (lookup "updateTime" d)
  some (
      new_context
        (record {
          tenant_id = tenant;
          session_id = session;
          user_id = user;
          context_type = kind;
          session_data = data_;
          update_time = updated;
        })
        now)

module _ ⦃bytes_eq : Eq (List ℕ)⦄ where
  unfoldable pub set_session_data : SessionContext → List ℕ → ℕ → SessionContext
  unfolding new_context
  set_session_data c data_ now =
      if data_ == c.session_data
      then c
      else new_context (record c { session_data = data_; update_time = now }) now

pub value_of-value : (k : ContextType) → value_of (context_value k) ≡ some k
unfolding value_of lookup
value_of-value ContextType.web = refl
value_of-value ContextType.live_agent = refl
value_of-value ContextType.push_notifier = refl

-- A session context that has its time is read back from its record as it was.
from_record-to_record_context :
    (c : SessionContext) (now : ℕ) → 0 < c.update_time → from_record (to_record c) now ≡ some c
unfolding from_record to_record lookup new_context
from_record-to_record_context c now h =
    rw (value_of-value c.context_type, or_else_old c.update_time now h) refl
