-- ===== src/Handler/Routes.antt =====
-- handler_route and handler_route_search.
use pronto.Prelude.{
  ℕ, ◌^◌, ◌-◌, ◌≤◌, ◌≡◌, ◌≢◌, ◌⊎◌, inl, inr, refl, Bool, true, false, Option, none, some, List, [],
  ◌∷◌, ◌++◌, ap, leb, length, length-append, All, Bool-cases, arith, if◌then◌else◌,
}
use pronto.Bytes.{Bytes, codes}
use pronto.Cluster.{Pronto}
use pronto.Request.{HttpRequest, same}
use pronto.Request.Strings.{same_eq, same_ne}
use pronto.Handler.{
  Route, HttpMethod, max_routes, method_name, handler_route, SearchStatus, not_found, not_allowed,
  found, search_loop, handler_route_search, served, schedule, job_done, answer, build_response,
  bad_request, method_not_allowed, path_not_found,
}

module _ {ℓ} {A : Type ℓ} where
  -- A route for this path and this method.
  abbrev pub IsMatch : Bytes → Bytes → Route A → Type 0
  IsMatch m p r = (r.path ≡ p) × (r.method ≡ m)

  -- What a search from `status` should find, without the loop that finds it.
  abbrev pub Finds :
      Bytes → Bytes → List (Route A) → SearchStatus → SearchStatus × Option A → Type ℓ
  Finds m p routes status (found, cb) =
      (before : List (Route A)) × (r : Route A) × (after : List (Route A)) × (routes
        ≡ before ++ r ∷ after)
      × All (λ x. ¬ IsMatch m p x) before
      × IsMatch m p r
      × (cb ≡ some r.callback)
  Finds m p routes status (not_allowed, cb) =
      (cb ≡ none)
      × All (λ x. ¬ IsMatch m p x) routes
      × ((status ≡ not_allowed)
          ⊎ ((before : List (Route A)) × (r : Route A) × (after : List (Route A)) × (routes
                ≡ before ++ r ∷ after)
              × (r.path ≡ p)))
  Finds m p routes status (not_found, cb) =
      (cb ≡ none) × (status ≡ not_found) × All (λ x. x.path ≢ p) routes

  -- A route for another path changes nothing.
  Finds-cons :
      (m p : Bytes) (r : Route A) (routes : List (Route A)) (status : SearchStatus)
      (res : SearchStatus × Option A)
      → r.path ≢ p
      → Finds m p routes status res
      → Finds m p (r ∷ routes) status res
  Finds-cons m p r routes status (found, cb) ne (before, x, after, e, others, hit, c) =
      (r ∷ before, x, after, ap (λ l. r ∷ l) e, (λ (h, k). ne h, others), hit, c)
  Finds-cons m p r routes status (not_allowed, cb) ne (c, others, inl e) =
      (c, (λ (h, k). ne h, others), inl e)
  Finds-cons m p r routes status (not_allowed, cb) ne (c, others, inr (before, x, after, e, hit)) =
      (c, (λ (h, k). ne h, others), inr (r ∷ before, x, after, ap (λ l. r ∷ l) e, hit))
  Finds-cons m p r routes status (not_found, cb) ne (c, e, others) = (c, e, (ne, others))

  -- A route for this path and another method: the rest is searched from `not_allowed`.
  Finds-wrong_method :
      (m p : Bytes) (r : Route A) (routes : List (Route A)) (status : SearchStatus)
      (res : SearchStatus × Option A)
      → r.path ≡ p
      → r.method ≢ m
      → Finds m p routes not_allowed res
      → Finds m p (r ∷ routes) status res
  Finds-wrong_method m p r routes status (found, cb) eq ne (before, x, after, e, others, hit, c) =
      (r ∷ before, x, after, ap (λ l. r ∷ l) e, (λ (h, k). ne k, others), hit, c)
  Finds-wrong_method m p r routes status (not_allowed, cb) eq ne (c, others, why) =
      (c, (λ (h, k). ne k, others), inr ([], r, routes, refl, eq))
  Finds-wrong_method m p r routes status (not_found, cb) eq ne (c, e, others) = absurd (cc)

  search_loop-Finds :
      (m p : Bytes) (routes : List (Route A)) (status : SearchStatus)
      → status ≢ found
      → Finds m p routes status (search_loop m p routes status)
  unfolding search_loop
  search_loop-Finds m p [] found h = absurd (h refl)
  search_loop-Finds m p [] not_allowed h = (refl, tt, inl refl)
  search_loop-Finds m p [] not_found h = (refl, refl, tt)
  search_loop-Finds m p (r ∷ routes) status h = elim (Bool-cases (same r.path p)) [
    | inr e ↦ rw (e) (
        Finds-cons m p r routes status (search_loop m p routes status) (same_ne e)
          (search_loop-Finds m p routes status h))
    | inl e ↦ elim (Bool-cases (same r.method m)) [
      | inl f ↦
          rw (e, f) ([], r, routes, refl, tt, (same_eq r.path p e, same_eq r.method m f), refl)
      | inr f ↦
          rw (e, f)
            (Finds-wrong_method m p r routes status (search_loop m p routes not_allowed)
              (same_eq r.path p e) (same_ne f) (search_loop-Finds m p routes not_allowed (λ k. cc)))
    ]
  ]

  -- A search reports `found` with the callback of the first route that has both the path and the
  -- method, if there is one; else `not_allowed`, if some route has the path; else `not_found`.
  pub handler_route_search_lem :
      (routes : List (Route A)) (m p : Bytes)
      → Finds m p routes not_found (handler_route_search routes m p)
  unfolding handler_route_search
  handler_route_search_lem routes m p = search_loop-Finds m p routes not_found (λ k. cc)

  -- Registering keeps the table within MAX_ROUTES, whatever it is asked: a route that has no room is
  -- ignored, with -2; any other is appended, with 0.
  pub handler_route-bound :
      (routes : List (Route A)) (m : HttpMethod) (p : Bytes) (cb : A)
      → length routes ≤ max_routes
      → (length ((handler_route routes m p cb).0) ≤ max_routes)
        × (((length routes ≡ max_routes) × (handler_route routes m p cb ≡ (routes, 2 ^ 32 - 2)))
            ⊎ ((r : Route A) × (r.path ≡ p)
                × (r.callback ≡ cb)
                × (handler_route routes m p cb ≡ (routes ++ r ∷ [], 0))))
  unfolding handler_route
  handler_route-bound routes m p cb h = elim (Bool-cases (leb max_routes (length routes))) [
    | inl e ↦ rw (e) (h, inl (ground arith, refl))
    | inr e ↦
        let r : Route A = record { method = method_name m; path = p; callback = cb } in
        let len = length-append routes (r ∷ []) in rw (e) (ground arith, inr (r, refl, refl, refl))
  ]

-- A function of the search's result is a function of each of its cases.
answer_if {ℓ κ} :
    {A : Type ℓ} {B : Type κ} (f : A → B) (first second method : Bool) (x y z w : A)
    → f (
        if first
        then (if method then x else z)
        else (if second then (if method then y else z) else w))
      ≡ (if first
          then (if method then f x else f z)
          else (if second then (if method then f y else f z) else f w))
answer_if f true second true x y z w = refl
answer_if f true second false x y z w = refl
answer_if f false true true x y z w = refl
answer_if f false true false x y z w = refl
answer_if f false false method x y z w = refl

-- Once a route has the wrong method, the next one of this method is of no use.
two_routes {ℓ} :
    {A : Type ℓ} (first second method : Bool) (x y z w : A)
    → (if first
        then (if method then x else (if second then (if method then y else z) else z))
        else (if second then (if method then y else z) else w))
      ≡ (if first
          then (if method then x else z)
          else (if second then (if method then y else z) else w))
two_routes true true true x y z w = refl
two_routes true true false x y z w = refl
two_routes true false true x y z w = refl
two_routes true false false x y z w = refl
two_routes false second method x y z w = refl

module _ {ℓ} {Json : Type ℓ} (valueint : Json → Bytes → Option ℕ) where
  served_lem :
      (m p : Bytes)
      → handler_route_search (served valueint) m p ≡ (
          if same (codes "/schedule") p
          then (if same (codes "POST") m
              then (found, some (schedule valueint))
              else (not_allowed, none))
          else (if same (codes "/done") p
              then (if same (codes "POST") m
                  then (found, some (job_done valueint))
                  else (not_allowed, none))
              else (not_found, none)))
  unfolding handler_route_search search_loop served handler_route
  served_lem m p =
      two_routes (same (codes "/schedule") p) (same (codes "/done") p) (same (codes "POST") m)
        (found, some (schedule valueint)) (found, some (job_done valueint)) (not_allowed, none)
        (not_found, none)

  -- Every request that was parsed: POST on /schedule and on /done gets what the callback does, any
  -- other method on these paths 405, any other path 404, and a bad request 400; these three change
  -- nothing.
  pub build_response_lem :
      (p : Pronto) (req : HttpRequest Json) (is_bad_request : Bool)
      → build_response valueint (served valueint) p req is_bad_request ≡ (
          if is_bad_request
          then some (p, bad_request)
          else (if same (codes "/schedule") req.path
              then (if same (codes "POST") req.method
                  then schedule valueint p req
                  else some (p, method_not_allowed))
              else (if same (codes "/done") req.path
                  then (if same (codes "POST") req.method
                      then job_done valueint p req
                      else some (p, method_not_allowed))
                  else some (p, path_not_found))))
  unfolding build_response
  build_response_lem p req true = refl
  build_response_lem p req false = rw (served_lem req.method req.path) (
      answer_if (answer valueint p req) (same (codes "/schedule") req.path)
        (same (codes "/done") req.path) (same (codes "POST") req.method)
        (found, some (schedule valueint)) (found, some (job_done valueint)) (not_allowed, none)
        (not_found, none))
