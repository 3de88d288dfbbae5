-- ===== src/Web/Dispatch.antt =====
-- Which route a request goes to, and which error it is answered with.
use shim_service.Base.{
  ◌≡◌, refl, inl, inr, Option, none, some, List, [], ◌∷◌, ◌++◌, ◌==◌, list_eq, nat_eq, All, arith,
  ap, sym, ◌∙◌, subst, Bool-cases, Option-cases,
}
use shim_service.Base.Texts.{Text}
use shim_service.Web.{
  Variables, matches, split_path, Route, find_full_route, find_route, Dispatched, process,
}

module _ (decode : Text → Text) (path : Text) where
  -- What a route makes of the path.
  abbrev pub variables_of : Route → Option Variables
  variables_of r = matches decode r.route_path path (split_path path)

  -- A route that the path does not match, and one that the request does not.
  abbrev pub Unmatched : Route → Type 0
  Unmatched r = variables_of r ≡ none

  abbrev pub Refused : Text → Route → Type 0
  Refused method r = r.method ≡ method → Unmatched r

  -- The first route that the request matches, and that those before it do not.
  abbrev pub FirstMatch : List Route → Text → Option (Route × Variables) → Type 0
  FirstMatch routes method none = All (Refused method) routes
  FirstMatch routes method (some (r, v)) =
      (before : List Route) × (after : List Route) × (routes ≡ before ++ (r ∷ after))
      × (r.method ≡ method)
      × (variables_of r ≡ some v)
      × All (Refused method) before

  -- One route more in front, that the request does not match.
  past :
      (r : Route) (rs : List Route) (method : Text) (found : Option (Route × Variables))
      → Refused method r
      → FirstMatch rs method found
      → FirstMatch (r ∷ rs) method found
  past r rs method none no_match h = (no_match, h)
  past r rs method (some (q, v)) no_match (before, after, split_, same, vars, refused) =
      (r ∷ before, after, ap (λ qs. r ∷ qs) split_, same, vars, (no_match, refused))

  find_full_route-FirstMatch :
      (routes : List Route) (method : Text)
      → FirstMatch routes method (find_full_route decode routes path method)
  unfolding find_full_route
  find_full_route-FirstMatch [] method = tt
  find_full_route-FirstMatch (r ∷ rs) method =
      let rest = find_full_route-FirstMatch rs method in
      elim (Bool-cases (r.method == method)) [
        | inl same ↦ elim (Option-cases (variables_of r)) [
          | inl e ↦
              rw (same, e) (past r rs method (find_full_route decode rs path method) (λ m. e) rest)
          | inr (v, e) ↦
              rw (same, e) ([], rs, refl, (list_eq.beq_iff r.method method).0 same, e, tt)
        ]
        | inr differs ↦ rw differs (
            past r rs method (find_full_route decode rs path method)
              (λ m. absurd (ground (arith, sym ((list_eq.beq_iff r.method method).1 m) ∙ differs)))
              rest)
      ]

  -- The first route that the path matches, whatever its method.
  abbrev pub FirstPath : List Route → Option Route → Type 0
  FirstPath routes none = All Unmatched routes
  FirstPath routes (some r) =
      (before : List Route) × (after : List Route) × (routes ≡ before ++ (r ∷ after))
      × ((v : Variables) × (variables_of r ≡ some v))
      × All Unmatched before

  past_path :
      (r : Route) (rs : List Route) (found : Option Route)
      → Unmatched r
      → FirstPath rs found
      → FirstPath (r ∷ rs) found
  past_path r rs none no_match h = (no_match, h)
  past_path r rs (some q) no_match (before, after, split_, vars, unmatched) =
      (r ∷ before, after, ap (λ qs. r ∷ qs) split_, vars, (no_match, unmatched))

  find_route-FirstPath : (routes : List Route) → FirstPath routes (find_route decode routes path)
  unfolding find_route
  find_route-FirstPath [] = tt
  find_route-FirstPath (r ∷ rs) = elim (Option-cases (variables_of r)) [
    | inl e ↦
        rw (e, find_route) (past_path r rs (find_route decode rs path) e (find_route-FirstPath rs))
    | inr (v, e) ↦ rw (e, find_route) ([], rs, refl, (v, e), tt)
  ]

  -- What each answer says of the routes.
  abbrev pub Answered : List Route → Text → Dispatched → Type 0
  Answered routes method (Dispatched.invoked r v) = FirstMatch routes method (some (r, v))
  Answered routes method Dispatched.method_not_allowed =
      All (Refused method) routes × ((r : Route) × FirstPath routes (some r))
  Answered routes method Dispatched.not_found = All Unmatched routes

  -- A request is given to the first route of its method that its path matches, with the path's
  -- variables; it is answered that the method is not allowed where no such route is there, but one
  -- of another method; and that nothing is found where the path matches no route at all.
  pub process-Answered :
      (routes : List Route) (method : Text)
      → Answered routes method (process decode routes path method)
  unfolding process
  process-Answered routes method = elim (Option-cases (find_full_route decode routes path method)) [
    | inr (found, e) ↦
        rw (e, process)
          (subst (FirstMatch routes method) e (find_full_route-FirstMatch routes method))
    | inl e ↦
        let refused =
          subst (FirstMatch routes method) e (find_full_route-FirstMatch routes method) in
        elim (Option-cases (find_route decode routes path)) [
          | inl f ↦ rw (e, process, f) (subst (FirstPath routes) f (find_route-FirstPath routes))
          | inr (r, f) ↦
              rw (e, process, f)
                (refused, (r, subst (FirstPath routes) f (find_route-FirstPath routes)))
        ]
  ]
