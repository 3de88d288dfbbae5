-- ===== src/Tests/Values.antt =====
-- Keys and tokens at concrete inputs.
use shim_service.Base.{◌≡◌, refl, String, Option, none, some, [], ◌∷◌, arith, nat_eq, string_eq}
use shim_service.Base.Dict
use shim_service.Base.Dict.{Dict}
use shim_service.Base.Texts.{Text}
use shim_service.Session.Tokens.{SessionToken, serialize, deserialize, deserialize-serialize}
use shim_service.Keys.{
  KeyValue, Item, Formatter, CompositeKey, prep_for_serialization, prep_for_deserialization,
}
use shim_service.Keys.RoundTrips.{prep_for_deserialization-serialization}

-- Credentials that obfuscate a text by a character in front.
abbrev obfuscate : Text → Text
obfuscate t = 1 ∷ t

abbrev clarify : Text → Option Text
clarify [] = none
clarify (c ∷ t) = some t

abbrev token : SessionToken
token = record { tenant_id = 305; session_id = 115 ∷ []; user_id = 117 ∷ 118 ∷ [] }

deserialize-serialize_example :
    deserialize obfuscate clarify (serialize obfuscate clarify token) ≡ some token
deserialize-serialize_example =
    deserialize-serialize obfuscate clarify (λ t. refl) token (ground arith, tt)
      (ground arith, (ground arith, tt))

-- A key of a tenant and a user in nine places, of table type `c`.
abbrev key : CompositeKey
key = record {
  attribute_name = "hashKey";
  original_parts =
      ("tenantId", Formatter.int_formatter (some 4))
      ∷ ("userId", Formatter.string_formatter (some 3))
      ∷ [];
  injected = some (99 ∷ []);
}

abbrev key_item : Item
key_item =
    ("tenantId", KeyValue.number 12)
    ∷ ("other", KeyValue.number 3)
    ∷ ("userId", KeyValue.chars (117 ∷ []))
    ∷ []

prep_for_deserialization-serialization_example :
    (stored : Item) × (back : Item) × (prep_for_serialization key key_item ≡ some stored)
    × (prep_for_deserialization key stored ≡ some back)
    × ((j : String) → Dict.lookup j back ≡ Dict.lookup j key_item)
unfolding Dict.lookup
prep_for_deserialization-serialization_example =
    prep_for_deserialization-serialization key key_item (refl, (refl, (refl, tt))) refl
      (
        (KeyValue.number 12, refl, tt),
        refl,
        ((KeyValue.chars (117 ∷ []), refl, ((ground arith, tt), (ground arith, tt))), refl, tt),
      )
      refl (ground arith) ((ground arith, tt), tt)
