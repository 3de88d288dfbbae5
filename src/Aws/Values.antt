-- ===== src/Aws/Values.antt =====
-- python/shim-service/src/aws/dynamodb.py: the values of a row, and the attributes that DynamoDB
-- keeps of them. A dict is its fields in order, each key once; a number is written as text.
pub mod RoundTrip
use shim_service.Base.{
  ℕ, zero, suc, ◌≡◌, refl, ap, ap₂, ◌≢◌, ◌∙◌, String, Bool, true, false, Option, none, some, List,
  [], ◌∷◌, ◌++◌, arith, eqb, contains, if◌then◌else◌, nat_eq, ◌>>=◌,
}
use shim_service.Base.Texts.{Text, show, read, read-zeros-show, Without, Without-digits}

pub data ℤ : Type 0 where
  pos : ℕ → ℤ
  negsuc : ℕ → ℤ

abbrev minus : ℕ
minus = b'-'

abbrev pub dot : ℕ
dot = b'.'

-- `str(n)` and `int(text)`.
unfoldable pub show_int : ℤ → Text
show_int (pos n) = show n
show_int (negsuc n) = minus ∷ show (suc n)

negative : Option ℕ → Option ℤ
negative none = none
negative (some zero) = some (pos zero)
negative (some (suc n)) = some (negsuc n)

positive : Option ℕ → Option ℤ
positive none = none
positive (some n) = some (pos n)

unfoldable pub read_int : Text → Option ℤ
unfolding negative positive
read_int [] = none
read_int (c ∷ cs) = if eqb c minus then negative (read cs) else positive (read (c ∷ cs))

-- Python's floats, with `str(x)` and `float(text)`.
pub record Floats : Type 1 where
  pub Float : Type 0
  pub show_float : Float → Text
  pub read_float : Text → Option Float

-- The text of a float is read back as the float.
pub record IsExact (f : Floats) : Type 0 where
  pub read-show : (x : f.Float) → f.read_float (f.show_float x) ≡ some x

module _ (f : Floats) where
  mutual
    -- The values of a row; `object` is of a type that the client cannot store.
    pub data Value : Type 0 where
      null object : Value
      str : String → Value
      bool : Bool → Value
      int : ℤ → Value
      float : f.Float → Value
      bytes : List ℕ → Value
      list : Items → Value
      dict : Fields → Value

    pub data Items : Type 0 where
      nil : Items
      cons : Value → Items → Items

    pub data Fields : Type 0 where
      end : Fields
      field : String → Value → Fields → Fields

  mutual
    -- What the service keeps: `{"S": ...}` and so on. `tagged` is a tag that the client does not
    -- know, or a dict with several.
    pub data Attribute : Type 0 where
      s : String → Attribute
      bool_of : Bool → Attribute
      b : List ℕ → Attribute
      n : Text → Attribute
      m : Entries → Attribute
      l : Attributes → Attribute
      null_of : Bool → Attribute
      tagged : List String → Attribute

    pub data Attributes : Type 0 where
      none_left : Attributes
      more : Attribute → Attributes → Attributes

    pub data Entries : Type 0 where
      no_entry : Entries
      entry : String → Attribute → Entries → Entries

  also : Option Attribute → Option Attributes → Option Attributes
  also (some a) (some as_) = some (more a as_)
  also (some a) none = none
  also none rest = none

  put : String → Option Attribute → Option Entries → Option Entries
  put k (some a) (some es) = some (entry k a es)
  put k (some a) none = none
  put k none rest = none

  as_list : Option Attributes → Option Attribute
  as_list (some as_) = some (l as_)
  as_list none = none

  as_map : Option Entries → Option Attribute
  as_map (some es) = some (m es)
  as_map none = none

  -- `none` is the exception for a type that is not in the table.
  unfoldable mutual
    unfolding also put as_list as_map show_int

    pub to_attribute_value : Value → Option Attribute
    to_attribute_value null = some (null_of true)
    to_attribute_value object = none
    to_attribute_value (str x) = some (s x)
    to_attribute_value (bool x) = some (bool_of x)
    to_attribute_value (int x) = some (n (show_int x))
    to_attribute_value (float x) = some (n (f.show_float x))
    to_attribute_value (bytes x) = some (b x)
    to_attribute_value (list xs) = as_list (to_list xs)
    to_attribute_value (dict fs) = as_map (to_attribute_value_map fs)

    pub to_list : Items → Option Attributes
    to_list nil = some none_left
    to_list (cons x xs) = also (to_attribute_value x) (to_list xs)

    pub to_attribute_value_map : Fields → Option Entries
    to_attribute_value_map end = some no_entry
    to_attribute_value_map (field k v fs) = put k (to_attribute_value v) (to_attribute_value_map fs)

  a_float : Option f.Float → Option Value
  a_float (some x) = some (float x)
  a_float none = none

  an_int : Option ℤ → Option Value
  an_int (some x) = some (int x)
  an_int none = none

  -- `float(x) if "." in x else int(x)`
  number : Text → Option Value
  unfolding a_float an_int read_int
  number t = if contains t dot then a_float (f.read_float t) else an_int (read_int t)

  also_value : Option Value → Option Items → Option Items
  also_value (some v) (some vs) = some (cons v vs)
  also_value (some v) none = none
  also_value none rest = none

  put_value : String → Option Value → Option Fields → Option Fields
  put_value k (some v) (some fs) = some (field k v fs)
  put_value k (some v) none = none
  put_value k none rest = none

  a_list : Option Items → Option Value
  a_list (some vs) = some (list vs)
  a_list none = none

  a_dict : Option Fields → Option Value
  a_dict (some fs) = some (dict fs)
  a_dict none = none

  -- `none` is the `ValueError`.
  unfoldable mutual
    unfolding number also_value put_value a_list a_dict

    pub convert_value : Attribute → Option Value
    convert_value (s x) = some (str x)
    convert_value (bool_of x) = some (bool x)
    convert_value (b x) = some (bytes x)
    convert_value (n t) = number t
    convert_value (m es) = a_dict (build_map es)
    convert_value (l as_) = a_list (build_list as_)
    convert_value (null_of x) = some null
    convert_value (tagged tags) = none

    pub build_list : Attributes → Option Items
    build_list none_left = some nil
    build_list (more a as_) = also_value (convert_value a) (build_list as_)

    pub build_map : Entries → Option Fields
    build_map no_entry = some end
    build_map (entry k a es) = put_value k (convert_value a) (build_map es)
