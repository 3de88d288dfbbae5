-- ===== src/Records.antt =====
-- The dicts that objects are written to and read from: python/shim-service/src/utils/dict_utils.py
-- and the channels of python/shim-service/src/platform_channels.py.
use text.Mathlib.Text.{starts_with}
use text.Mathlib.TextPositions.{starts_with-append}
use text.Mathlib.TextLemmas.{append_cancel_left}
use shim_service.Base.{
  ℕ, String, ◌<>◌, ◌≡◌, refl, Bool, true, false, ◌||◌, Option, none, some, List, [], ◌∷◌, ltb,
  if◌then◌else◌, Eq, ◌==◌, nat_eq, string_eq, list_eq, ◌↔◌, contains, arith, beq_refl,
}
use shim_service.Base.Dict.{Dict, lookup, insert, lookup-insert}

pub data Value : Type 0 where
  null yes not_so : Value
  int : ℕ → Value
  str : String → Value
  bytes : List ℕ → Value

abbrev same_value : Value → Value → Bool
same_value Value.null Value.null = true
same_value Value.yes Value.yes = true
same_value Value.not_so Value.not_so = true
same_value (Value.int m) (Value.int n) = m == n
same_value (Value.str s) (Value.str t) = s == t
same_value (Value.bytes b) (Value.bytes c) = b == c
same_value _ _ = false

bytes_iff : (b c : List ℕ) → ((b == c) ≡ true) ↔ (b ≡ c)
bytes_iff b c = list_eq.beq_iff b c

pub same_value_iff : (u v : Value) → (same_value u v ≡ true) ↔ (u ≡ v)
same_value_iff (Value.int m) (Value.int n) = ground (arith, nat_eq.beq_iff m n)
same_value_iff (Value.str s) (Value.str t) = ground (arith, string_eq.beq_iff s t)
same_value_iff (Value.bytes b) (Value.bytes c) = ground (arith, bytes_iff b c)
same_value_iff _ _ = ground arith

instance abbrev pub value_eq : Eq Value
value_eq = record { beq = same_value; beq_iff = same_value_iff }

abbrev pub Record : Type 0
Record = Dict String Value

-- `if value:` on what a record holds.
abbrev pub is_true : Option Value → Bool
is_true none = false
is_true (some Value.null) = false
is_true (some Value.yes) = true
is_true (some Value.not_so) = false
is_true (some (Value.int n)) = ltb 0 n
is_true (some (Value.str s)) = if s == "" then false else true
is_true (some (Value.bytes [])) = false
is_true (some (Value.bytes (b ∷ bs))) = true

-- `record[name]` as a value of the type that is written there; `none` is the `KeyError`, or a value
-- of another type.
abbrev pub as_int : Option Value → Option ℕ
as_int (some (Value.int n)) = some n
as_int _ = none

abbrev pub as_text : Option Value → Option String
as_text (some (Value.str s)) = some s
as_text _ = none

abbrev pub as_bytes : Option Value → Option (List ℕ)
as_bytes (some (Value.bytes b)) = some b
as_bytes _ = none

abbrev pub as_bool : Option Value → Option Bool
as_bool (some Value.yes) = some true
as_bool (some Value.not_so) = some false
as_bool _ = none

abbrev pub bool_value : Bool → Value
bool_value true = Value.yes
bool_value false = Value.not_so

pub as_bool-bool_value : (b : Bool) → as_bool (some (bool_value b)) ≡ some b
as_bool-bool_value true = refl
as_bool-bool_value false = refl

-- `record.get(name)`, where `None` is allowed.
abbrev pub get_int : Option Value → Option (Option ℕ)
get_int none = some none
get_int (some Value.null) = some none
get_int (some (Value.int n)) = some (some n)
get_int _ = none

abbrev pub get_text : Option Value → Option (Option String)
get_text none = some none
get_text (some Value.null) = some none
get_text (some (Value.str s)) = some (some s)
get_text _ = none

-- A value that may be `None`, as it is stored.
abbrev pub or_null {ℓ} : {A : Type ℓ} → (A → Value) → Option A → Value
or_null f none = Value.null
or_null f (some a) = f a

unfoldable pub set_if_not_none {ℓ} :
    {A : Type ℓ} → Record → String → (A → Value) → Option A → Record
set_if_not_none record_ key f none = record_
set_if_not_none record_ key f (some a) = insert key (f a) record_

-- The registered channels, in the order of their registration, and the first of them.
abbrev pub omni : String
omni = "omni"

abbrev pub channels : List String
channels = omni ∷ "x1440" ∷ []

abbrev pub channel_key : String → String
channel_key c = "pt_" <> c

unfoldable pub serialize_platform_channels : List String → Record → Record
serialize_platform_channels [] record_ = record_
serialize_platform_channels (pt ∷ pts) record_ =
    serialize_platform_channels pts (insert (channel_key pt) Value.yes record_)

abbrev pub channels_set : Record → List String → List String
channels_set record_ [] = []
channels_set record_ (c ∷ cs) =
    let rest = channels_set record_ cs in
    if is_true (lookup (channel_key c) record_) then c ∷ rest else rest

unfoldable pub deserialize_platform_channels : Record → List String
deserialize_platform_channels record_ = channels_set record_ channels

-- The members of `cs` that `xs` holds, in the order of `cs`.
abbrev pub members_of : List String → List String → List String
members_of xs [] = []
members_of xs (c ∷ cs) = let rest = members_of xs cs in if contains xs c then c ∷ rest else rest

-- A key that is no channel's is left alone by the channels.
pub plain_ne : (k c : String) → starts_with k "pt_" ≡ false → (k == channel_key c) ≡ false
plain_ne k c h = ground (arith, string_eq.beq_iff k (channel_key c), starts_with-append "pt_" c)

pub channel_ne : (k c : String) → starts_with k "pt_" ≡ false → (channel_key c == k) ≡ false
channel_ne k c h = ground (arith, string_eq.beq_iff (channel_key c) k, starts_with-append "pt_" c)

pub lookup-serialize_plain :
    (k : String) (pts : List String) (d : Record)
    → starts_with k "pt_" ≡ false
    → lookup k (serialize_platform_channels pts d) ≡ lookup k d
unfolding serialize_platform_channels
lookup-serialize_plain k [] d h = refl
lookup-serialize_plain k (pt ∷ pts) d h =
    rw
      (
        lookup-serialize_plain k pts (insert (channel_key pt) Value.yes d) h,
        lookup-insert k (channel_key pt) Value.yes d,
        plain_ne k pt h,
      )
      refl

channel_key_iff : (c d : String) → (channel_key c == channel_key d) ≡ (c == d)
channel_key_iff c d = ground (
  arith,
  string_eq.beq_iff c d,
  string_eq.beq_iff (channel_key c) (channel_key d),
  append_cancel_left "pt_" c d,
)

pub is_true-serialize :
    (c : String) (pts : List String) (d : Record)
    → is_true (lookup (channel_key c) (serialize_platform_channels pts d))
      ≡ (contains pts c || is_true (lookup (channel_key c) d))
unfolding serialize_platform_channels
is_true-serialize c [] d = refl
is_true-serialize c (pt ∷ pts) d =
    rw
      (
        is_true-serialize c pts (insert (channel_key pt) Value.yes d),
        lookup-insert (channel_key c) (channel_key pt) Value.yes d,
        channel_key_iff c pt,
      )
      (ground arith)

pub channels_set_lem :
    (pts cs : List String) (d : Record)
    → ((c : String) → is_true (lookup (channel_key c) d) ≡ contains pts c)
    → channels_set d cs ≡ members_of pts cs
channels_set_lem pts [] d h = refl
channels_set_lem pts (c ∷ cs) d h = rw (h c, channels_set_lem pts cs d h) refl

pub lookup-set_ne {ℓ} :
    {A : Type ℓ} (d : Record) (k j : String) (f : A → Value) (o : Option A)
    → (j == k) ≡ false
    → lookup j (set_if_not_none d k f o) ≡ lookup j d
unfolding set_if_not_none
lookup-set_ne d k j f none h = refl
lookup-set_ne d k j f (some a) h = rw (lookup-insert j k (f a) d, h) refl

-- A field that was set where the record had none is read as it was.
pub get_text-set :
    (d : Record) (k : String) (o : Option String)
    → lookup k d ≡ none
    → get_text (lookup k (set_if_not_none d k Value.str o)) ≡ some o
unfolding set_if_not_none
get_text-set d k none h = rw h refl
get_text-set d k (some s) h = rw (lookup-insert k k (Value.str s) d, beq_refl k) refl

-- Of a text or a number that may be missing.
pub get_text-or_null : (o : Option String) → get_text (some (or_null Value.str o)) ≡ some o
get_text-or_null none = refl
get_text-or_null (some s) = refl

pub get_int-or_null : (o : Option ℕ) → get_int (some (or_null Value.int o)) ≡ some o
get_int-or_null none = refl
get_int-or_null (some s) = refl
