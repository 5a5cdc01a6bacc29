-- ===== src/Server/Router/Registry.antt =====
-- The registry that `main` builds, and what `get_route` finds in it.
use cbank_system.Prelude.{
  ℕ, ◌+◌, ◌≤◌, ◌<◌, ◌≡◌, refl, ap, sym, ◌∙◌, ◌⊎◌, Bool, true, false, List, [], ◌∷◌, ◌++◌, Option,
  none, some, length, leb, if◌then◌else◌, map, any, append-nil, append_assoc, All, All-append,
  length-append, Bool-cases, inl, inr, arith,
}
use cbank_system.Prelude.Ret.{ok}
use cbank_system.Text.{Bytes, bytes_eq, case_eq}
use cbank_system.Server.Http.{HttpRequest}
use cbank_system.Server.Router.{
  Route, RouteRegistry, RouteValidationResponse, init_route_registry, count_filled, counted,
  new_capacity, register_route, registry_after, register_all, found, refused, not_found_flag,
  method_not_allowed_flag, has_method, find_route, get_route,
}

-- The block has room for its routes.
abbrev pub HasRoom : RouteRegistry → Type 0
HasRoom registry = length registry.routes ≤ registry.capacity

length_snoc {ℓ} : {A : Type ℓ} (xs : List A) (x : A) → length (xs ++ x ∷ []) ≡ length xs + 1
length_snoc xs x = length-append xs (x ∷ [])

new_capacity_grows : (n capacity : ℕ) → n ≤ capacity → n + 1 ≤ new_capacity capacity
unfolding new_capacity
new_capacity_grows n capacity h = ground arith

-- The registry that a successful registration gives: the old block, or a larger one.
module _ (granted : ℕ → Bool) (registry next : RouteRegistry) (route : Route) where
  registered :
      register_route granted registry route ≡ some next
      → (next.routes ≡ registry.routes ++ counted route ∷ [])
        × ((next.capacity ≡ new_capacity registry.capacity)
            ⊎ ((length registry.routes < registry.capacity) × (next.capacity ≡ registry.capacity)))
  unfolding register_route
  registered e = elim (Bool-cases (leb registry.capacity (length registry.routes))) [
    | inl full ↦ elim (Bool-cases (granted (new_capacity registry.capacity))) [
      | inl room ↦ let e' = rw (full, room) at e in (cc, inl cc)
      | inr denied ↦ let e' = rw (full, denied) at e in cc
    ]
    | inr room ↦ let e' = rw room at e in (cc, inr (ground arith, cc))
  ]

  -- A registration that succeeds appends the route and keeps the routes within their block, which it
  -- grows when it is full.
  pub register_route-HasRoom :
      HasRoom registry
      → register_route granted registry route ≡ some next
      → HasRoom next × (next.routes ≡ registry.routes ++ counted route ∷ [])
  register_route-HasRoom h e =
      let (appended, grown) = registered e in
      (
        rw (appended, length_snoc registry.routes (counted route))
            (elim grown [
              | inl doubled ↦
                  rw doubled (new_capacity_grows (length registry.routes) registry.capacity h)
              | inr (room, kept) ↦ rw kept (omega arith)
            ]),
        appended,
      )

-- The methods that a declared route allows: the entries in front of the first null one.
unfoldable pub filled {ℓ} : {A : Type ℓ} → List (Option A) → List A
filled [] = []
filled (none ∷ entries) = []
filled (some a ∷ entries) = a ∷ filled entries

-- What a request is answered by: the first declared route of its path, if it allows the method in
-- whatever case.
unfoldable pub answering : List Route → HttpRequest → RouteValidationResponse
answering [] req = refused not_found_flag
answering (route ∷ routes) req =
    let later = answering routes req in
    if bytes_eq req.path route.path
    then if any (case_eq req.method) (filled route.allowed_methods)
      then found (counted route)
      else refused method_not_allowed_flag
    else later

has_method-filled :
    (method : Bytes) (allowed : List (Option (List ℕ)))
    → has_method method allowed (count_filled allowed) ≡ ok (any (case_eq method) (filled allowed))
unfolding count_filled has_method filled
has_method-filled method [] = refl
has_method-filled method (none ∷ allowed) = refl
has_method-filled method (some a ∷ allowed) = elim (Bool-cases (case_eq method a)) [
  | inl same ↦ rw same
  | inr other ↦ rw other (has_method-filled method allowed)
]

find_route-counted :
    (routes : List Route) (req : HttpRequest)
    → find_route (map counted routes) req ≡ ok (answering routes req)
unfolding find_route answering counted
find_route-counted [] req = refl
find_route-counted (route ∷ routes) req =
    rw (has_method-filled req.method route.allowed_methods, find_route-counted routes req)
      (elim (Bool-cases (bytes_eq req.path route.path)) [
        | inl same ↦ elim (Bool-cases (any (case_eq req.method) (filled route.allowed_methods))) [
          | inl allowed ↦ rw (same, allowed)
          | inr barred ↦ rw (same, barred)
        ]
        | inr other ↦ rw other
      ])

-- One round of `main`'s loop: the route is appended, unless its memory is refused.
registry_after-routes :
    (granted : ℕ → Bool) (registry : RouteRegistry) (route : Route)
    → let next = registry_after registry (register_route granted registry route) in
      (next.routes ≡ registry.routes ++ counted route ∷ [])
      ⊎ ((granted (new_capacity registry.capacity) ≡ false) × (next.routes ≡ registry.routes))
unfolding register_route registry_after
registry_after-routes granted registry route =
    elim (Bool-cases (leb registry.capacity (length registry.routes))) [
      | inl full ↦ elim (Bool-cases (granted (new_capacity registry.capacity))) [
        | inl room ↦ rw (full, room) (inl refl)
        | inr denied ↦ rw (full, denied) (inr (refl, refl))
      ]
      | inr room ↦ rw room (inl refl)
    ]

register_all-routes :
    (granted : ℕ → Bool) (registry : RouteRegistry) (routes : List Route)
    → ((n : ℕ) → granted n ≡ true)
    → (register_all granted registry routes).routes ≡ registry.routes ++ map counted routes
unfolding register_all
register_all-routes granted registry [] h = sym (append-nil registry.routes)
register_all-routes granted registry (route ∷ routes) h =
    let next = registry_after registry (register_route granted registry route) in
    elim (registry_after-routes granted registry route) [
      | inl appended ↦
          register_all-routes granted next routes h
          ∙ ap (λ rs. rs ++ map counted routes) appended
          ∙ append_assoc registry.routes (counted route ∷ []) (map counted routes)
      | inr (denied, kept) ↦ let granted_all = h (new_capacity registry.capacity) in cc
    ]

-- In the registry that `main` builds from the declared routes, where memory is granted, `get_route`
-- answers every request by the first route declared for its path, and follows no null method.
pub get_route-register_all :
    (granted : ℕ → Bool) (routes : List Route) (req : HttpRequest)
    → ((n : ℕ) → granted n ≡ true)
    → get_route (register_all granted init_route_registry routes) req ≡ ok (answering routes req)
unfolding get_route
get_route-register_all granted routes req h =
    rw (register_all-routes granted init_route_registry routes h) (find_route-counted routes req)

-- What holds of every route, once counted, holds of every route of the registry.
pub register_all-All :
    (P : Route → Type 0) (granted : ℕ → Bool) (registry : RouteRegistry) (routes : List Route)
    → All P registry.routes
    → All (λ r. P (counted r)) routes
    → All P (register_all granted registry routes).routes
unfolding register_all
register_all-All P granted registry [] h k = h
register_all-All P granted registry (route ∷ routes) h (p, k) =
    let next = registry_after registry (register_route granted registry route) in
    elim (registry_after-routes granted registry route) [
      | inl appended ↦
          register_all-All P granted next routes
            (rw appended (All-append P registry.routes (counted route ∷ []) h (p, tt))) k
      | inr (denied, kept) ↦ register_all-All P granted next routes (rw kept h) k
    ]
