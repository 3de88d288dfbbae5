-- ===== src/Keys.antt =====
-- python/shim-service/src/aws/dynamodb_keys.py: the attributes of a key are one text in the
-- database. Texts are lists of code points here; an attribute's value is a number or a text.
pub mod RoundTrips
use shim_service.Base.{
  ℕ, zero, suc, String, Bool, true, false, Option, none, some, List, [], ◌∷◌, ◌++◌, ◌>>=◌,
  if◌then◌else◌, string_eq,
}
use shim_service.Base.Dict.{Dict, lookup, insert, erase}
use shim_service.Base.Texts.{Text, join, split, show, read, ljust, rjust, until}

pub data KeyValue : Type 0 where
  number : ℕ → KeyValue
  chars : Text → KeyValue

abbrev pub Item : Type 0
Item = Dict String KeyValue

-- `str` and `int` formatters, with their size if they have one.
pub data Formatter : Type 0 where
  string_formatter int_formatter : Option ℕ → Formatter

abbrev pub tab : ℕ
tab = 9

abbrev pub tilde : ℕ
tilde = 126

-- `str(value)`
abbrev pub str_of : KeyValue → Text
str_of (KeyValue.number n) = show n
str_of (KeyValue.chars t) = t

-- `format`; `none` is the error of a number that is given for a text, at the latest in `join`.
unfoldable pub format : Formatter → KeyValue → Option Text
format (Formatter.string_formatter size) (KeyValue.number n) = none
format (Formatter.string_formatter none) (KeyValue.chars t) = some t
format (Formatter.string_formatter (some size)) (KeyValue.chars t) = some (ljust size tilde t)
format (Formatter.int_formatter none) v = some (str_of v)
format (Formatter.int_formatter (some size)) v = some (rjust size 48 (str_of v))

abbrev pub as_number : Option ℕ → Option KeyValue
as_number none = none
as_number (some n) = some (KeyValue.number n)

-- `extract`; `none` is the `ValueError` of `int`.
unfoldable pub extract : Formatter → Text → Option KeyValue
extract (Formatter.string_formatter none) t = some (KeyValue.chars t)
extract (Formatter.string_formatter (some size)) t = some (KeyValue.chars (until tilde t))
extract (Formatter.int_formatter size) t = as_number (read t)

-- `CompositeKey`: the attribute it is stored as, its parts in order, and the injected value.
abbrev pub Parts : Type 0
Parts = List (String × Formatter)

pub record CompositeKey : Type 0 where
  pub attribute_name : String
  pub original_parts : Parts
  pub injected : Option Text

-- The loop of `build_key` with `remove`: the parts' texts and the item without the attributes.
unfoldable pub pop_parts : Parts → Item → Option (List Text × Item)
pop_parts [] item = some ([], item)
pop_parts ((name, f) ∷ parts) item = do
  v ← lookup name item
  t ← format f v
  (ts, rest) ← pop_parts parts (erase name item)
  some (t ∷ ts, rest)

abbrev pub injected_first : Option Text → List Text → List Text
injected_first none ts = ts
injected_first (some t) ts = t ∷ ts

-- `prep_for_serialization`
unfoldable pub prep_for_serialization : CompositeKey → Item → Option Item
prep_for_serialization k item = do
  (ts, rest) ← pop_parts k.original_parts item
  some (insert k.attribute_name (KeyValue.chars (join tab (injected_first k.injected ts))) rest)

-- The loop of `prep_for_deserialization`; `none` where the key has too few parts.
unfoldable pub put_parts : Parts → List Text → Item → Option Item
put_parts [] ts item = some item
put_parts (p ∷ parts) [] item = none
put_parts ((name, f) ∷ parts) (t ∷ ts) item = do
  v ← extract f t
  put_parts parts ts (insert name v item)

abbrev pub skip_injected : Option Text → List Text → Option (List Text)
skip_injected none ts = some ts
skip_injected (some t) [] = none
skip_injected (some t) (u ∷ us) = some us

abbrev pub as_chars : KeyValue → Option Text
as_chars (KeyValue.number n) = none
as_chars (KeyValue.chars t) = some t

unfoldable pub prep_for_deserialization : CompositeKey → Item → Option Item
prep_for_deserialization k item = do
  v ← lookup k.attribute_name item
  key ← as_chars v
  ts ← skip_injected k.injected (split tab key)
  put_parts k.original_parts ts (erase k.attribute_name item)
