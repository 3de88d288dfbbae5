-- ===== src/Keys/RoundTrips.antt =====
-- What is stored under a composite key, read back with the attributes of the key.
use shim_service.Base.{
  ℕ, suc, ◌<◌, ◌≡◌, refl, sym, ap, ◌∙◌, String, Bool, true, false, Option, none, some, List, [],
  ◌∷◌, if◌then◌else◌, ◌==◌, string_eq, arith, Bool-cases, inl, inr, length, All, replicate, ◌-◌,
  beq_refl,
}
use shim_service.Base.Dict.{
  lookup, insert, erase, NodupKeys, lookup-insert, lookup-insert_self, lookup-erase_ne,
  lookup-erase_self, erase-NodupKeys, insert-NodupKeys,
}
use shim_service.Base.Texts.{
  Text, join, split, show, read, ljust, rjust, Without, split-join, read-zeros-show, until-ljust,
  Without-append, Without-replicate, Without-digits,
}
use shim_service.Keys.{
  KeyValue, Item, Formatter, tab, tilde, format, extract, Parts, CompositeKey, pop_parts,
  injected_first, prep_for_serialization, put_parts, skip_injected, prep_for_deserialization,
}

-- The values that a formatter gives back: a text has no delimiter in it and, where it is padded, no
-- padding; a number is one.
abbrev pub Fits : Formatter → KeyValue → Type 0
Fits (Formatter.string_formatter none) (KeyValue.chars t) = Without tab t
Fits (Formatter.string_formatter (some size)) (KeyValue.chars t) = Without tab t × Without tilde t
Fits (Formatter.string_formatter size) (KeyValue.number n) = ⊥
Fits (Formatter.int_formatter size) (KeyValue.number n) = Unit
Fits (Formatter.int_formatter size) (KeyValue.chars t) = ⊥

abbrev Stored : Formatter → KeyValue → Type 0
Stored f v = (t : Text) × (format f v ≡ some t) × (extract f t ≡ some v) × Without tab t

Without-show : (n : ℕ) → Without tab (show n)
Without-show n = Without-digits tab n n [] (λ k h. ground (arith, h)) tt

Without-ljust : (size : ℕ) (t : Text) → Without tab t → Without tab (ljust size tilde t)
unfolding ljust
Without-ljust size t w =
    Without-append tab t (replicate (size - length t) tilde) w
      (Without-replicate tab (size - length t) tilde (ground arith))

Without-rjust : (size n : ℕ) → Without tab (rjust size 48 (show n))
unfolding rjust
Without-rjust size n =
    Without-append tab (replicate (size - length (show n)) 48) (show n)
      (Without-replicate tab (size - length (show n)) 48 (ground arith)) (Without-show n)

read-rjust : (size n : ℕ) → read (rjust size 48 (show n)) ≡ some n
unfolding rjust
read-rjust size n = read-zeros-show (size - length (show n)) n

Fits-Stored : (f : Formatter) (v : KeyValue) → Fits f v → Stored f v
unfolding format extract
Fits-Stored (Formatter.string_formatter none) (KeyValue.chars t) w = (t, refl, refl, w)
Fits-Stored (Formatter.string_formatter (some size)) (KeyValue.chars t) (w, u) =
    (ljust size tilde t, refl, rw (until-ljust size tilde t u) refl, Without-ljust size t w)
Fits-Stored (Formatter.string_formatter none) (KeyValue.number n) w = absurd w
Fits-Stored (Formatter.string_formatter (some size)) (KeyValue.number n) w = absurd w
Fits-Stored (Formatter.int_formatter none) (KeyValue.number n) w =
    (show n, refl, rw (read-zeros-show 0 n) refl, Without-show n)
Fits-Stored (Formatter.int_formatter (some size)) (KeyValue.number n) w =
    (rjust size 48 (show n), refl, rw (read-rjust size n) refl, Without-rjust size n)
Fits-Stored (Formatter.int_formatter size) (KeyValue.chars t) w = absurd w

-- Whether a part has a name.
abbrev pub named : String → Parts → Bool
named j [] = false
named j ((name, f) ∷ parts) = if j == name then true else named j parts

-- Each part has a value in the item that its formatter gives back, and no two parts have one name.
abbrev pub AllFit : Parts → Item → Type 0
AllFit [] item = Unit
AllFit ((name, f) ∷ parts) item =
    ((v : KeyValue) × (lookup name item ≡ some v) × Fits f v)
    × (named name parts ≡ false)
    × AllFit parts item

fit_same :
    (parts : Parts) (item other : Item)
    → ((j : String) → named j parts ≡ true → lookup j other ≡ lookup j item)
    → AllFit parts item
    → AllFit parts other
fit_same [] item other same fit = tt
fit_same ((name, f) ∷ parts) item other same ((v, at_, fits), new, fit) = (
  (v, same name (rw (beq_refl name) refl) ∙ at_, fits),
  new,
  fit_same parts item other (λ j h. same j (ground (arith, h))) fit,
)

-- What the two loops over the parts do, one after the other.
abbrev Restores : Parts → Item → List Text → Item → Type 0
Restores parts item ts rest =
    (length ts ≡ length parts)
    × (NodupKeys item → NodupKeys rest)
    × All (Without tab) ts
    × ((j : String) → named j parts ≡ false → lookup j rest ≡ lookup j item)
    × ((d : Item)
        → (r : Item) × (put_parts parts ts d ≡ some r)
          × ((j : String) → lookup j r ≡ (if named j parts then lookup j item else lookup j d)))

module _ (name : String) (f : Formatter) (parts : Parts) (item : Item) (v : KeyValue)
    (at_ : lookup name item ≡ some v) (new : named name parts ≡ false) where
  other : (j : String) → named j parts ≡ true → (j == name) ≡ false
  other j h = elim (Bool-cases (j == name)) [
    | inl same ↦ ground (arith, ap (λ i. named i parts) ((string_eq.beq_iff j name).0 same))
    | inr differs ↦ differs
  ]

  kept_below :
      (rest : Item) (j : String)
      → named j ((name, f) ∷ parts) ≡ false
      → (named j parts ≡ false → lookup j rest ≡ lookup j (erase name item))
      → lookup j rest ≡ lookup j item
  kept_below rest j h kept = elim (Bool-cases (j == name)) [
    | inl same ↦ absurd (ground (arith, h, same))
    | inr differs ↦ kept (ground (arith, h, differs)) ∙ lookup-erase_ne j name item differs
  ]

  looks_below :
      (d r : Item) (j : String)
      → lookup j r
        ≡ (if named j parts then lookup j (erase name item) else lookup j (insert name v d))
      → lookup j r ≡ (if named j ((name, f) ∷ parts) then lookup j item else lookup j d)
  looks_below d r j looks = elim (Bool-cases (j == name)) [
    | inl same ↦
        let e = (string_eq.beq_iff j name).0 same in
        let not_there : named j parts ≡ false = ap (λ i. named i parts) e ∙ new in
        let found : lookup j item ≡ some v = ap (λ i. lookup i item) e ∙ at_ in
        looks ∙ rw (not_there, same, found, lookup-insert j name v d, same) refl
    | inr differs ↦
        looks
        ∙ rw (differs, lookup-insert j name v d, differs, lookup-erase_ne j name item differs) refl
  ]

pop-put :
    (parts : Parts) (item : Item)
    → AllFit parts item
    → (ts : List Text) × (rest : Item) × (pop_parts parts item ≡ some (ts, rest))
      × Restores parts item ts rest
unfolding pop_parts put_parts
pop-put [] item fit =
    ([], item, refl, (refl, (λ u. u), tt, (λ j h. refl), λ d. (d, refl, λ j. refl)))
pop-put ((name, f) ∷ parts) item ((v, at_, fits), new, fit) =
    let (t, formatted, extracted, plain) = Fits-Stored f v fits in
    let (ts, rest, popped, (sized, distinct, plains, kept, puts)) =
      pop-put parts (erase name item) (
        fit_same parts item (erase name item)
          (λ j h. lookup-erase_ne j name item (other name f parts item v at_ new j h)) fit) in
    (
      t ∷ ts,
      rest,
      rw (at_, formatted, popped) refl,
      (
        ap suc sized,
        (λ u. distinct (erase-NodupKeys name item u)),
        (plain, plains),
        (λ j h. kept_below name f parts item v at_ new rest j h (kept j)),
        λ d.
            let (r, put, looks) = puts (insert name v d) in
            (r, rw extracted put, λ j. looks_below name f parts item v at_ new d r j (looks j)),
      ),
    )

-- The attributes that are no part of the key, while it is stored and taken out again.
unnamed_left :
    (k : CompositeKey) (item rest : Item) (key : KeyValue)
    → lookup k.attribute_name item ≡ none
    → NodupKeys rest
    → (j : String) → (named j k.original_parts ≡ false → lookup j rest ≡ lookup j item)
    → (if named j k.original_parts
        then lookup j item
        else lookup j (erase k.attribute_name (insert k.attribute_name key rest)))
      ≡ lookup j item
unnamed_left k item rest key new u j kept = elim (Bool-cases (named j k.original_parts)) [
  | inl part ↦ rw part refl
  | inr no_part ↦ rw no_part (elim (Bool-cases (j == k.attribute_name)) [
    | inl same ↦
        let e = (string_eq.beq_iff j k.attribute_name).0 same in
        let stored = insert k.attribute_name key rest in
        ap (λ i. lookup i (erase k.attribute_name stored)) e
        ∙ lookup-erase_self k.attribute_name stored (insert-NodupKeys k.attribute_name key rest u)
        ∙ sym new
        ∙ ap (λ i. lookup i item) (sym e)
    | inr differs ↦
        lookup-erase_ne j k.attribute_name (insert k.attribute_name key rest) differs
        ∙ rw (lookup-insert j k.attribute_name key rest, differs) (kept no_part)
  ])
]

-- The texts of the parts, from the joined key.
skip_lem :
    (injected : Option Text) (ts : List Text)
    → 0 < length ts
    → All (Without tab) (injected_first injected [])
    → All (Without tab) ts
    → skip_injected injected (split tab (join tab (injected_first injected ts))) ≡ some ts
skip_lem injected [] h p q = absurd (ground arith)
skip_lem none (t ∷ ts) h p q = rw (split-join tab t ts q) refl
skip_lem (some i) (t ∷ ts) h p q = rw (split-join tab i (t ∷ ts) (p.0, q)) refl

-- What has been stored under a composite key is read back with each attribute as it was, where the
-- item has each key once and none of the composite key's name, the parts' values fit their
-- formatters, the parts have different names and there is one, and the injected value holds no
-- delimiter.
pub prep_for_deserialization-serialization :
    (k : CompositeKey) (item : Item)
    → NodupKeys item
    → lookup k.attribute_name item ≡ none
    → AllFit k.original_parts item
    → named k.attribute_name k.original_parts ≡ false
    → 0 < length k.original_parts
    → All (Without tab) (injected_first k.injected [])
    → (stored : Item) × (back : Item) × (prep_for_serialization k item ≡ some stored)
      × (prep_for_deserialization k stored ≡ some back)
      × ((j : String) → lookup j back ≡ lookup j item)
unfolding prep_for_serialization prep_for_deserialization
prep_for_deserialization-serialization k item u new fit outside some_part plain =
    let (ts, rest, popped, (sized, distinct, plains, kept, puts)) =
      pop-put k.original_parts item fit in
    let key : KeyValue = KeyValue.chars (join tab (injected_first k.injected ts)) in
    let stored = insert k.attribute_name key rest in
    let (back, put, looks) = puts (erase k.attribute_name stored) in
    (
      stored,
      back,
      rw popped refl,
      rw
          (
            lookup-insert_self k.attribute_name key rest,
            skip_lem k.injected ts (omega (arith, sized, some_part)) plain plains,
          )
          put,
      λ j. looks j ∙ unnamed_left k item rest key new (distinct u) j (kept j),
    )
