-- ===== src/Web.antt =====
-- python/shim-service/src/utils/path_utils.py and lambda_web_framework/router.py: the paths of the
-- web service and the routes that are registered for them. Texts are lists of code points.
pub mod Dispatch
use shim_service.Base.{
  ℕ, zero, suc, ◌+◌, ◌≡◌, refl, Bool, true, false, ◌&&◌, not, Option, none, some, List, [], ◌∷◌,
  ◌++◌, ◌>>=◌, if◌then◌else◌, Eq, ◌==◌, nat_eq, list_eq, ltb, eqb, length,
}
use shim_service.Base.Dict.{Dict, lookup, insert}
use shim_service.Base.Texts.{Text, split}

abbrev pub slash : ℕ
slash = 47

abbrev pub non_empty : List Text → List Text
non_empty [] = []
non_empty (t ∷ ts) = let rest = non_empty ts in if ltb 0 (length t) then t ∷ rest else rest

unfoldable pub split_path : Text → List Text
split_path path = non_empty (split slash path)

-- `p.startswith("{") and p.endswith("}")`, and the name between the braces.
abbrev pub without_brace : Text → Option Text
without_brace [] = none
without_brace (c ∷ []) = if eqb c 125 then some [] else none
without_brace (c ∷ d ∷ cs) = elim (without_brace (d ∷ cs)) [ none ↦ none | some n ↦ some (c ∷ n) ]

unfoldable pub var_name : Text → Option Text
var_name [] = none
var_name (c ∷ cs) = if eqb c 123 then without_brace cs else none

abbrev pub wildcard : Text
wildcard = 63 ∷ []

pub record UrlPath : Type 0 where
  pub path : Text
  pub parts : List Text
  pub part_names : Dict Text ℕ
  pub part_indices : Dict ℕ Text

-- A part of a path at its index: `none` is the `ValueError` of a name that was used before.
add_part : Option Text → Text → ℕ → UrlPath → Option UrlPath
add_part none p index x = some (record x { parts = x.parts ++ (p ∷ []) })
add_part (some name) p index x = elim (lookup name x.part_names) [
  | some used ↦ none
  | none ↦ some (record x {
    parts = x.parts ++ (wildcard ∷ []);
    part_names = insert name index x.part_names;
    part_indices = insert index name x.part_indices;
  })
]

abbrev pub add_parts : List Text → ℕ → UrlPath → Option UrlPath
unfolding add_part
add_parts [] index x = some x
add_parts (p ∷ ps) index x = do y ← add_part (var_name p) p index x; add_parts ps (index + 1) y

-- `Path.__init__`
unfoldable pub new_path : Text → Option UrlPath
unfolding add_part
new_path path =
    add_parts (split_path path) 0
      (record { path = path; parts = []; part_names = []; part_indices = [] })

-- The variables of a path: the name and its decoded part, as the library decodes it.
abbrev pub Variables : Type 0
Variables = Dict Text Text

-- A route: its method, its path, and what it calls.
pub record Route : Type 0 where
  pub method : Text
  pub route_path : UrlPath
  pub caller : ℕ

-- What a request comes to, before its route is called.
pub data Dispatched : Type 0 where
  not_found method_not_allowed : Dispatched
  invoked : Route → Variables → Dispatched

module _ (decode_from_url : Text → Text) where
  -- The loop of `matches` from an index; `none` is a part that differs. A part that is `?` and no
  -- variable is the `KeyError`, which counts as none here.
  unfoldable pub match_parts : UrlPath → ℕ → List Text → List Text → Variables → Option Variables
  match_parts x index [] those variables = some variables
  match_parts x index (our ∷ ours) [] variables = none
  match_parts x index (our ∷ ours) (that ∷ those) variables =
      if our == wildcard
      then (do
        name ← lookup index x.part_indices
        match_parts x (index + 1) ours those (insert name (decode_from_url that) variables))
      else (if our == that then match_parts x (index + 1) ours those variables else none)

  unfoldable pub matches : UrlPath → Text → List Text → Option Variables
  unfolding match_parts
  matches x path parts =
      if eqb (length x.part_names) 0 && (x.path == path)
      then some []
      else (if eqb (length parts) (length x.parts) then match_parts x 0 x.parts parts [] else none)

  -- `__find_full_route` and `__find_route`, over the routes in the order of their registration.
  unfoldable pub find_full_route : List Route → Text → Text → Option (Route × Variables)
  find_full_route [] path method = none
  find_full_route (r ∷ rs) path method =
      let rest = find_full_route rs path method in
      if r.method == method
      then elim (matches r.route_path path (split_path path)) [ none ↦ rest | some v ↦ some (r, v) ]
      else rest

  unfoldable pub find_route : List Route → Text → Option Route
  find_route [] path = none
  find_route (r ∷ rs) path =
      let rest = find_route rs path in
      elim (matches r.route_path path (split_path path)) [ none ↦ rest | some v ↦ some r ]

  -- `process`, up to the call of the route.
  unfoldable pub process : List Route → Text → Text → Dispatched
  process routes path method = elim (find_full_route routes path method) [
    | some found ↦ Dispatched.invoked found.0 found.1
    | none ↦ elim (find_route routes path) [
      | none ↦ Dispatched.not_found
      | some r ↦ Dispatched.method_not_allowed
    ]
  ]
