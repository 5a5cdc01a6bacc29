-- ===== src/Server/Handle/Access.antt =====
-- No handler of a protected route runs without a token that `jwt_validate` accepts.
use cbank_system.Prelude.{
  ℕ, ◌≡◌, refl, Bool, true, false, List, [], ◌∷◌, Option, none, some, if◌then◌else◌, All, replicate,
  Bool-cases, inl, inr,
}
use cbank_system.Prelude.Ret.{ok, >>=-eq-ok}
use cbank_system.Text.{bytes_eq}
use cbank_system.Server.Http.{HttpRequest}
use cbank_system.Server.Router.{
  RouteHandler, Middleware, decode_url, auth, Route, RouteValidationResponse, counted, has_method,
  find_route, found, refused, method_not_allowed_flag, count_filled, handle_home, handle_login,
  handle_register_acocunt,
}
use cbank_system.Server.Routes.{routes}

-- The handlers of the pages that everybody may see; all others are protected.
unfoldable pub is_protected : RouteHandler → Bool
is_protected handle_home = false
is_protected handle_login = false
is_protected handle_register_acocunt = false
is_protected _ = true

-- What the table of routes promises: a protected handler stands behind the token check.
abbrev pub IsGuarded : Route → Type 0
IsGuarded r =
    is_protected r.handler ≡ true
    → (r.middleware_count ≡ 2)
      × ((rest : List (Option Middleware)) × (r.middlewares ≡ some decode_url ∷ some auth ∷ rest))

-- The entries of a protected route's array.
stands :
    (◌≡◌ {A = ℕ} 2 2)
    × ((rest : List (Option Middleware)) × (some decode_url ∷ some auth ∷ replicate 8 none
          ≡ some decode_url ∷ some auth ∷ rest))
stands = (refl, (replicate 8 none, refl))

pub routes-IsGuarded : All (λ r. IsGuarded (counted r)) routes
unfolding counted count_filled is_protected
routes-IsGuarded = (
  λ h. cc,
  (
    λ h. stands,
    (
      λ h. stands,
      (λ h. cc, (λ h. cc, (λ h. stands, (λ h. stands, (λ h. stands, (λ h. stands, tt)))))),
    ),
  ),
)

decided :
    (route : Route) (b : Bool) (answer : RouteValidationResponse) (r : Route)
    → ok (if b then found route else refused method_not_allowed_flag) ≡ ok answer
    → answer.route ≡ some r
    → route ≡ r
unfolding found
decided route true answer r e same = cc
decided route false answer r e same = cc

pub find_route-All :
    (P : Route → Type 0) (routes : List Route) (req : HttpRequest)
    (answer : RouteValidationResponse) (r : Route)
    → All P routes
    → find_route routes req ≡ ok answer
    → answer.route ≡ some r
    → P r
unfolding find_route found
find_route-All P [] req answer r h e same = cc
find_route-All P (route ∷ routes) req answer r (p, h) e same =
    elim (Bool-cases (bytes_eq req.path route.path)) [
      | inl here ↦
          let (b, asked, e1) =
            >>=-eq-ok (has_method req.method route.allowed_methods route.method_count) _
              (rw here at e) in
          rw (← decided route b answer r e1 same) p
      | inr there ↦ find_route-All P routes req answer r h (rw there at e) same
    ]
