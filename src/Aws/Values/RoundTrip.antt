-- ===== src/Aws/Values/RoundTrip.antt =====
-- A row that the client writes, read back.
use shim_service.Base.{
  ℕ, suc, ◌≡◌, refl, String, true, false, Option, none, some, [], ◌∷◌, arith, contains, nat_eq,
  subst,
}
use shim_service.Base.Texts.{Text, show, read, read-zeros-show, Without, Without-digits}
use shim_service.Aws.Values.{
  ℤ, pos, negsuc, dot, show_int, read_int, Floats, IsExact, Value, null, object, str, bool, int,
  float, bytes, list, dict, Items, nil, cons, Fields, end, field, Attribute, Attributes, Entries,
  number, also, put, as_list, as_map, to_attribute_value, to_list, to_attribute_value_map,
  convert_value, build_list, build_map,
}

Without-contains : (t : Text) → Without dot t → contains t dot ≡ false
Without-contains [] w = refl
Without-contains (c ∷ cs) w = ground (arith, Without-contains cs w.1, w.0)

show-Without : (k : ℕ) → Without dot (show k)
show-Without k = Without-digits dot k k [] (λ d h e. absurd (omega arith)) tt

show_int-contains : (x : ℤ) → contains (show_int x) dot ≡ false
unfolding show_int
show_int-contains (pos k) = Without-contains (show k) (show-Without k)
show_int-contains (negsuc k) =
    Without-contains (b'-' ∷ show (suc k)) ((λ e. absurd (omega arith)), show-Without (suc k))

read-show : (k : ℕ) → read (show k) ≡ some k
read-show k = read-zeros-show 0 k

read_int-unsigned :
    (t : Text) (k : ℕ) → Without b'-' t → read t ≡ some k → read_int t ≡ some (pos k)
unfolding read_int read
read_int-unsigned [] k w e = cc
read_int-unsigned (c ∷ cs) k w e = ground (arith, w.0)

pub read_int-show_int : (x : ℤ) → read_int (show_int x) ≡ some x
unfolding show_int read_int
read_int-show_int (pos k) =
    read_int-unsigned (show k) k (Without-digits b'-' k k [] (λ d h e. absurd (omega arith)) tt)
      (read-show k)
read_int-show_int (negsuc k) = rw (read-show (suc k)) refl

module _ (f : Floats) where
  -- The texts of the floats of a value have a dot.
  abbrev mutual
    pub Dotted : Value f → Type 0
    Dotted null = Unit
    Dotted object = Unit
    Dotted (str x) = Unit
    Dotted (bool x) = Unit
    Dotted (int x) = Unit
    Dotted (float x) = contains (f.show_float x) dot ≡ true
    Dotted (bytes x) = Unit
    Dotted (list xs) = DottedItems xs
    Dotted (dict fs) = DottedFields fs

    pub DottedItems : Items f → Type 0
    DottedItems nil = Unit
    DottedItems (cons x xs) = Dotted x × DottedItems xs

    pub DottedFields : Fields f → Type 0
    DottedFields end = Unit
    DottedFields (field k v fs) = Dotted v × DottedFields fs

  -- Reading what was written gives the value, wherever the writing did not raise.
  abbrev Back : Value f → Option (Attribute f) → Type 0
  Back v none = Unit
  Back v (some a) = convert_value f a ≡ some v

  abbrev BackItems : Items f → Option (Attributes f) → Type 0
  BackItems xs none = Unit
  BackItems xs (some as_) = build_list f as_ ≡ some xs

  abbrev BackFields : Fields f → Option (Entries f) → Type 0
  BackFields fs none = Unit
  BackFields fs (some es) = build_map f es ≡ some fs

  also-Back :
      (x : Value f) (xs : Items f) (a : Option (Attribute f)) (as_ : Option (Attributes f))
      → Back x a
      → BackItems xs as_
      → BackItems (cons x xs) (also f a as_)
  unfolding also convert_value
  also-Back x xs none as_ h k = tt
  also-Back x xs (some a) none h k = tt
  also-Back x xs (some a) (some as_) h k = rw (h, k) refl

  put-Back :
      (n : String) (v : Value f) (fs : Fields f) (a : Option (Attribute f))
      (es : Option (Entries f))
      → Back v a
      → BackFields fs es
      → BackFields (field n v fs) (put f n a es)
  unfolding put convert_value
  put-Back n v fs none es h k = tt
  put-Back n v fs (some a) none h k = tt
  put-Back n v fs (some a) (some es) h k = rw (h, k) refl

  as_list-Back :
      (xs : Items f) (as_ : Option (Attributes f))
      → BackItems xs as_
      → Back (list xs) (as_list f as_)
  unfolding as_list convert_value
  as_list-Back xs none h = tt
  as_list-Back xs (some as_) h = rw h refl

  as_map-Back :
      (fs : Fields f) (es : Option (Entries f)) → BackFields fs es → Back (dict fs) (as_map f es)
  unfolding as_map convert_value
  as_map-Back fs none h = tt
  as_map-Back fs (some es) h = rw h refl

  module _ (exact : IsExact f) where
    mutual
      unfolding to_attribute_value convert_value number

      value-Back : (v : Value f) → Dotted v → Back v (to_attribute_value f v)
      value-Back null d = refl
      value-Back object d = tt
      value-Back (str x) d = refl
      value-Back (bool x) d = refl
      value-Back (int x) d = rw (show_int-contains x, read_int-show_int x) refl
      value-Back (float x) d = rw (d, exact.read-show x) refl
      value-Back (bytes x) d = refl
      value-Back (list xs) d = as_list-Back xs _ (items-Back xs d)
      value-Back (dict fs) d = as_map-Back fs _ (fields-Back fs d)

      items-Back : (xs : Items f) → DottedItems xs → BackItems xs (to_list f xs)
      items-Back nil d = refl
      items-Back (cons x xs) d = also-Back x xs _ _ (value-Back x d.0) (items-Back xs d.1)

      fields-Back : (fs : Fields f) → DottedFields fs → BackFields fs (to_attribute_value_map f fs)
      fields-Back end d = refl
      fields-Back (field k v fs) d = put-Back k v fs _ _ (value-Back v d.0) (fields-Back fs d.1)

    -- A row that the client can write, the texts of whose floats have a dot, is read back from what
    -- was written as it was.
    pub build_map-to_attribute_value_map :
        (row : Fields f) {written : Entries f}
        → DottedFields row
        → to_attribute_value_map f row ≡ some written
        → build_map f written ≡ some row
    build_map-to_attribute_value_map row d e = subst (BackFields row) e (fields-Back row d)
