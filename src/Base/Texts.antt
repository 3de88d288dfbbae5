-- ===== src/Base/Texts.antt =====
-- Texts as lists of code points, where the program walks them: `split`, `join`, `str` and `int` of
-- numbers, `ljust` and `rjust`.
use Prim.Native.Nat.{ℕ, zero, suc, ◌+◌, ◌-◌, ◌*◌, ◌/◌, ◌%◌, ◌≤◌, ◌<◌}
use mathlib.Core.Path.{◌≡◌, refl, ap, ◌∙◌}
use mathlib.Core.Logic.{◌≢◌, inl, inr}
use mathlib.Core.Bool.{true}
use mathlib.Core.Option.{Option, none, some}
use mathlib.Core.List.{List, [], ◌∷◌, ◌++◌, append-nil}
use native.Mathlib.Omega.{arith}
use shim_service.Base.Tests.{eqb, ltb, leb, if◌then◌else◌, Bool-cases, ltb→lt}
use shim_service.Base.Lists.{length, All, replicate, length-append, length-replicate}

abbrev pub Text : Type 0
Text = List ℕ

-- `delimiter.join(parts)`
unfoldable pub join : ℕ → List Text → Text
join d [] = []
join d (t ∷ []) = t
join d (t ∷ u ∷ us) = t ++ (d ∷ join d (u ∷ us))

abbrev pub push_char : ℕ → List Text → List Text
push_char c [] = (c ∷ []) ∷ []
push_char c (t ∷ ts) = (c ∷ t) ∷ ts

-- `text.split(delimiter)`
unfoldable pub split : ℕ → Text → List Text
split d [] = [] ∷ []
split d (c ∷ cs) = let rest = split d cs in if eqb c d then [] ∷ rest else push_char c rest

-- No character of a text is `d`.
abbrev pub Without : ℕ → Text → Type 0
Without d [] = Unit
Without d (c ∷ cs) = (c ≢ d) × Without d cs

split-last : (d : ℕ) (t : Text) → Without d t → split d t ≡ t ∷ []
unfolding split
split-last d [] w = refl
split-last d (c ∷ cs) w = rw (split-last d cs w.1) (ground (arith, w.0))

split-append : (d : ℕ) (t u : Text) → Without d t → split d (t ++ (d ∷ u)) ≡ t ∷ split d u
unfolding split
split-append d [] u w = ground arith
split-append d (c ∷ cs) u w = rw (split-append d cs u w.1) (ground (arith, w.0))

-- Texts without the delimiter are split as they were joined.
pub split-join :
    (d : ℕ) (t : Text) (ts : List Text)
    → All (Without d) (t ∷ ts)
    → split d (join d (t ∷ ts)) ≡ t ∷ ts
unfolding join
split-join d t [] w = split-last d t w.0
split-join d t (u ∷ us) w = rw (split-append d t (join d (u ∷ us)) w.0, split-join d u us w.1) refl

-- `str(n)`: the digits in front of `tail`, with fuel.
unfoldable pub digits : ℕ → ℕ → Text → Text
digits zero n tail = (48 + n % 10) ∷ tail
digits (suc fuel) n tail =
    let rest = digits fuel (n / 10) ((48 + n % 10) ∷ tail) in
    if ltb n 10 then (48 + n % 10) ∷ tail else rest

abbrev pub show : ℕ → Text
show n = digits n n []

-- `int(text)` of a text of digits; the signs, spaces and underscores that Python accepts too are
-- refused here.
unfoldable pub read_from : ℕ → Text → Option ℕ
read_from n [] = some n
read_from n (c ∷ cs) =
    let rest = read_from (n * 10 + (c - 48)) cs in
    if leb 48 c then (if ltb c 58 then rest else none) else none

unfoldable pub read : Text → Option ℕ
unfolding read_from
read [] = none
read (c ∷ cs) = read_from 0 (c ∷ cs)

read_from-digit :
    (m n : ℕ) (tail : Text) → n < 10 → read_from m ((48 + n) ∷ tail) ≡ read_from (m * 10 + n) tail
unfolding read_from
read_from-digit m n tail h = rw (yes, no, same) refl
  where
    yes : leb 48 (48 + n) ≡ true
    yes = ground arith

    no : ltb (48 + n) 58 ≡ true
    no = ground arith

    same : 48 + n - 48 ≡ n
    same = omega arith

pub read_from-digits :
    (fuel n : ℕ) (tail : Text) → n ≤ fuel → read_from 0 (digits fuel n tail) ≡ read_from n tail
unfolding digits
read_from-digits zero n tail h =
    read_from-digit 0 (n % 10) tail (omega arith) ∙ ap (λ m. read_from m tail) (omega (arith, h))
read_from-digits (suc fuel) n tail h = elim (Bool-cases (ltb n 10)) [
  | inl small ↦ rw small (
      read_from-digit 0 (n % 10) tail (omega arith)
      ∙ ap (λ m. read_from m tail) (omega (arith, ltb→lt n 10 small)))
  | inr large ↦ rw large (
      read_from-digits fuel (n / 10) ((48 + n % 10) ∷ tail) (omega (arith, h))
      ∙ read_from-digit (n / 10) (n % 10) tail (omega arith)
      ∙ ap (λ m. read_from m tail) (omega arith))
]

-- A text that is not empty is read from zero.
read-nonempty : (t : Text) → 0 < length t → read t ≡ read_from 0 t
unfolding read
read-nonempty [] h = absurd (ground arith)
read-nonempty (c ∷ cs) h = refl

pub length-digits : (fuel n : ℕ) (tail : Text) → length tail < length (digits fuel n tail)
unfolding digits
length-digits zero n tail = omega arith
length-digits (suc fuel) n tail = ground (arith, length-digits fuel (n / 10) ((48 + n % 10) ∷ tail))

-- Zeros in front of a number's digits are read away.
read_from-zeros : (k : ℕ) (t : Text) → read_from 0 (replicate k 48 ++ t) ≡ read_from 0 t
read_from-zeros zero t = refl
read_from-zeros (suc k) t =
    read_from-digit 0 0 (replicate k 48 ++ t) (omega arith) ∙ read_from-zeros k t

pub read-zeros-show : (k n : ℕ) → read (replicate k 48 ++ show n) ≡ some n
unfolding read_from
read-zeros-show k n =
    read-nonempty (replicate k 48 ++ show n)
      (rw (length-append (replicate k 48) (show n)) (omega (arith, length-digits n n [])))
    ∙ read_from-zeros k (show n)
    ∙ read_from-digits n n [] (omega arith)

-- Padding on the right: `text.ljust(size, fill)`, and on the left: `text.rjust(size, fill)`.
unfoldable pub ljust : ℕ → ℕ → Text → Text
ljust size fill t = t ++ replicate (size - length t) fill

unfoldable pub rjust : ℕ → ℕ → Text → Text
rjust size fill t = replicate (size - length t) fill ++ t

-- The text up to the first `d`, all of it where there is none.
unfoldable pub until : ℕ → Text → Text
until d [] = []
until d (c ∷ cs) = let rest = until d cs in if eqb c d then [] else c ∷ rest

until-fill : (d k : ℕ) → until d (replicate k d) ≡ []
unfolding until
until-fill d zero = refl
until-fill d (suc k) = ground arith

until-append : (d : ℕ) (t u : Text) → Without d t → until d (t ++ u) ≡ t ++ until d u
unfolding until
until-append d [] u w = refl
until-append d (c ∷ cs) u w = rw (until-append d cs u w.1) (ground (arith, w.0))

pub until-ljust : (size d : ℕ) (t : Text) → Without d t → until d (ljust size d t) ≡ t
unfolding ljust
until-ljust size d t w =
    until-append d t (replicate (size - length t) d) w
    ∙ ap (λ u. t ++ u) (until-fill d (size - length t))
    ∙ append-nil t

-- What padding and digits are made of.
pub Without-append : (d : ℕ) (t u : Text) → Without d t → Without d u → Without d (t ++ u)
Without-append d [] u w v = v
Without-append d (c ∷ cs) u w v = (w.0, Without-append d cs u w.1 v)

pub Without-replicate : (d k c : ℕ) → c ≢ d → Without d (replicate k c)
Without-replicate d zero c h = tt
Without-replicate d (suc k) c h = (h, Without-replicate d k c h)

pub Without-digits :
    (d fuel n : ℕ) (tail : Text)
    → ((k : ℕ) → k < 10 → 48 + k ≢ d)
    → Without d tail
    → Without d (digits fuel n tail)
unfolding digits
Without-digits d zero n tail h w = (h (n % 10) (omega arith), w)
Without-digits d (suc fuel) n tail h w = elim (Bool-cases (ltb n 10)) [
  | inl small ↦ rw small (h (n % 10) (omega arith), w)
  | inr large ↦
      rw large
        (Without-digits d fuel (n / 10) ((48 + n % 10) ∷ tail) h (h (n % 10) (omega arith), w))
]

-- Padding is idempotent.
pub ljust_idem :
    (size fill : ℕ) (t : Text) → ljust size fill (ljust size fill t) ≡ ljust size fill t
unfolding ljust
ljust_idem size fill t =
    let full : size - length (t ++ replicate (size - length t) fill) ≡ 0 = omega (
      arith,
      length-append t (replicate (size - length t) fill),
      length-replicate (size - length t) fill,
    ) in
    rw full (append-nil (t ++ replicate (size - length t) fill))

pub rjust_idem :
    (size fill : ℕ) (t : Text) → rjust size fill (rjust size fill t) ≡ rjust size fill t
unfolding rjust
rjust_idem size fill t =
    let full : size - length (replicate (size - length t) fill ++ t) ≡ 0 = omega (
      arith,
      length-append (replicate (size - length t) fill) t,
      length-replicate (size - length t) fill,
    ) in
    rw full refl
