-- ===== src/Server/Router.antt =====
-- server/router.c: the registry of routes. A pointer that may be null is an `Option`; a function
-- pointer is the name of the function it points to.
pub mod Registry
use cbank_system.Prelude.{
  ℕ, zero, suc, ◌+◌, ◌*◌, Bool, true, false, List, [], ◌∷◌, ◌++◌, Option, none, some, length, leb,
  ◌==◌, if◌then◌else◌,
}
use cbank_system.Prelude.Ret.{Ret, ok, fault, ◌>>=◌}
use cbank_system.Text.{Bytes, bytes_eq, case_eq}
use cbank_system.Server.Http.{HttpRequest}

pub data RouteHandler : Type 0 where
  handle_home handle_accounts handle_api_accounts handle_login handle_register_acocunt
        handle_transfer handle_extract handle_cards handle_payments :
      RouteHandler

pub data Middleware : Type 0 where
  decode_url auth : Middleware

pub record Route : Type 0 where
  pub path : Bytes
  pub handler : RouteHandler
  pub allowed_methods : List (Option (List ℕ))
  pub middlewares : List (Option Middleware)
  pub method_count : ℕ
  pub middleware_count : ℕ

pub data HandlerErrorFlags : Type 0 where
  no_error_flag not_found_flag method_not_allowed_flag : HandlerErrorFlags

pub record RouteValidationResponse : Type 0 where
  pub route : Option Route
  pub error_flag : HandlerErrorFlags
  pub valid : Bool

-- The `count` routes that the block holds, and how many it has room for.
pub record RouteRegistry : Type 0 where
  pub routes : List Route
  pub capacity : ℕ

abbrev pub init_route_registry : RouteRegistry
init_route_registry = record { routes = []; capacity = 0 }

-- The loop that counts the entries of an array in front of the first null one.
unfoldable pub count_filled {ℓ} : {A : Type ℓ} → List (Option A) → ℕ
count_filled [] = 0
count_filled (none ∷ entries) = 0
count_filled (some a ∷ entries) = suc (count_filled entries)

unfoldable pub counted : Route → Route
counted route = record route {
  method_count = count_filled route.allowed_methods;
  middleware_count = count_filled route.middlewares;
}

unfoldable pub new_capacity : ℕ → ℕ
new_capacity capacity = if capacity == 0 then 8 else capacity * 2

-- `granted n` tells whether `realloc` finds room for `n` routes; `none` is the error -1, on which the
-- registry is left as it is.
unfoldable pub register_route : (ℕ → Bool) → RouteRegistry → Route → Option RouteRegistry
register_route granted registry route =
    let routes' = registry.routes ++ counted route ∷ [] in
    if leb registry.capacity (length registry.routes)
    then if granted (new_capacity registry.capacity)
      then some (record { routes = routes'; capacity = new_capacity registry.capacity })
      else none
    else some (record registry { routes = routes' })

unfoldable pub found : Route → RouteValidationResponse
found r = record { route = some r; error_flag = no_error_flag; valid = true }

abbrev pub refused : HandlerErrorFlags → RouteValidationResponse
refused flag = record { route = none; error_flag = flag; valid = false }

-- The inner loop of `get_route`: a null entry in front of the count would be followed.
unfoldable pub has_method : Bytes → List (Option (List ℕ)) → ℕ → Ret Bool
has_method method allowed zero = ok false
has_method method [] (suc n) = fault
has_method method (none ∷ allowed) (suc n) = fault
has_method method (some a ∷ allowed) (suc n) =
    let rest = has_method method allowed n in if case_eq method a then ok true else rest

-- The outer loop: the first route of that path decides.
unfoldable pub find_route : List Route → HttpRequest → Ret RouteValidationResponse
find_route [] req = ok (refused not_found_flag)
find_route (route ∷ routes) req =
    let rest = find_route routes req in
    let allowed = has_method req.method route.allowed_methods route.method_count in
    if bytes_eq req.path route.path
    then (allowed >>= λ yes. ok (if yes then found route else refused method_not_allowed_flag))
    else rest

unfoldable pub get_route : RouteRegistry → HttpRequest → Ret RouteValidationResponse
get_route registry req = find_route registry.routes req

-- `main` ignores the result of `register_route`.
unfoldable pub registry_after : RouteRegistry → Option RouteRegistry → RouteRegistry
registry_after registry none = registry
registry_after registry (some next) = next

-- The loop of `main` over the declared routes.
unfoldable pub register_all : (ℕ → Bool) → RouteRegistry → List Route → RouteRegistry
register_all granted registry [] = registry
register_all granted registry (route ∷ routes) =
    register_all granted (registry_after registry (register_route granted registry route)) routes
