-- ===== src/Tests/Queries.antt =====
-- A query of two pages, and a row with a nested dict.
use shim_service.Base.{
  ◌==◌, nat_eq, if◌then◌else◌, ℕ, suc, ◌≤◌, ◌≡◌, refl, Option, none, some, List, [], ◌∷◌, map,
  length, take, arith, length-take,
}
use shim_service.Base.Texts.{digits}
use shim_service.Aws.Values.{
  pos, negsuc, Floats, IsExact, int, str, list, float, nil, cons, Fields, end, field, Entries,
  entry, no_entry, n, s, l, more, none_left, to_attribute_value, build_map, show_int,
}
use shim_service.Aws.Values.RoundTrip.{build_map-to_attribute_value_map}
use shim_service.Aws.Results.{QueryFunction, Client, query_function, new_result_set, stop, rows_of}
use shim_service.Aws.Results.Pages.{rows_of_lem, rows_of_stops}
use shim_service.Aws.Results.Limits.{length-rows_of}

-- Floats that are halves of even numbers: `0.5` is their only text here.
abbrev halves : Floats
halves = record {
  Float = Unit;
  show_float = λ x. b'0' ∷ b'.' ∷ b'5' ∷ [];
  read_float = λ t. some tt;
}

halves-IsExact : IsExact halves
halves-IsExact = record { read-show = λ x. refl }

abbrev row : Fields halves
row =
    field "tenantId" (int (pos 12)) (
      field "ack" (int (negsuc 0))
        (field "items" (list (cons (str "x") (cons (float tt) nil))) end))

abbrev written : Entries halves
written = entry "tenantId" (n (b'1' ∷ b'2' ∷ [])) (
    entry "ack" (n (b'-' ∷ b'1' ∷ []))
      (entry "items" (l (more (s "x") (more (n (b'0' ∷ b'.' ∷ b'5' ∷ [])) none_left))) no_entry))

build_map-to_attribute_value_map_example : build_map halves written ≡ some row
unfolding to_attribute_value show_int digits
build_map-to_attribute_value_map_example =
    build_map-to_attribute_value_map halves halves-IsExact row {written = written}
      (tt, (tt, ((tt, (refl, tt)), tt))) refl

abbrev pages : QueryFunction ℕ ℕ ℕ
pages none calls = (some (record { items = 7 ∷ 8 ∷ []; next_key = some 8; count = 2 }), suc calls)
pages (some key) calls = (some (record { items = 9 ∷ []; next_key = none; count = 1 }), suc calls)

rows_of_lem_example :
    (rows_of pages (λ (i : ℕ). i) 4 new_result_set 0).0
    ≡ (map (λ (i : ℕ). i) (7 ∷ 8 ∷ 9 ∷ []), some stop)
rows_of_lem_example =
    rows_of_lem pages (λ (i : ℕ). i) 4 1 0 (7 ∷ 8 ∷ 9 ∷ [])
      (
        record { items = 7 ∷ 8 ∷ []; next_key = some 8; count = 2 },
        1,
        8,
        9 ∷ [],
        refl,
        refl,
        (λ e. cc e),
        refl,
        (record { items = 9 ∷ []; next_key = none; count = 1 }, 2, refl, refl, refl),
      )
      (omega arith)

-- The second page of three reads rows that the filter drops.
abbrev filtered : QueryFunction ℕ ℕ ℕ
filtered none calls = (some (record { items = 7 ∷ []; next_key = some 8; count = 1 }), suc calls)
filtered (some key) calls =
    if key == 8
    then (some (record { items = []; next_key = some 9; count = 0 }), suc calls)
    else (some (record { items = 9 ∷ []; next_key = none; count = 1 }), suc calls)

rows_of_stops_example :
    (rows_of filtered (λ (i : ℕ). i) 5 new_result_set 0).0
    ≡ (map (λ (i : ℕ). i) (7 ∷ []), some stop)
rows_of_stops_example =
    rows_of_stops filtered (λ (i : ℕ). i) 5 1 0 (7 ∷ [])
      (
        record { items = 7 ∷ []; next_key = some 8; count = 1 },
        1,
        8,
        [],
        refl,
        refl,
        (λ e. cc e),
        refl,
        (record { items = []; next_key = some 9; count = 0 }, 2, 9, refl, refl, refl, refl, refl),
      )
      (omega arith)

abbrev three : List ℕ
three = 7 ∷ 8 ∷ 9 ∷ []

-- A table of three items, its start key being how many are read.
abbrev table : Client ℕ ℕ
table = record {
  State = Unit;
  query = λ limit key state. (
    record {
      items = take (limited limit) three;
      next_key = some 1;
      count = length (take (limited limit) three);
    },
    state,
  );
}
  where
    limited : Option ℕ → ℕ
    limited none = 3
    limited (some limit) = limit

length-rows_of_example :
    length (rows_of (query_function table) (λ (i : ℕ). i) 9 new_result_set (some 2, tt)).0.0 ≤ 2
length-rows_of_example =
    length-rows_of table (λ limit key state. omega (arith, length-take limit three)) (λ (i : ℕ). i)
      9 2 tt
