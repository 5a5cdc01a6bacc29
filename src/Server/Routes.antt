-- ===== src/Server/Routes.antt =====
-- server/routes.h and server/route_contants.h: the routes of the program.
use cbank_system.Prelude.{ℕ, List, [], ◌∷◌, Option, none, some, replicate, length, ◌-◌, ◌++◌, map}
use cbank_system.Text.{Bytes, codes}
use cbank_system.Server.Router.{
  Route, RouteHandler, Middleware, decode_url, auth, handle_home, handle_accounts,
  handle_api_accounts, handle_login, handle_register_acocunt, handle_transfer, handle_extract,
  handle_cards, handle_payments,
}

abbrev pub max_methods : ℕ
max_methods = 4

abbrev pub max_middlewares : ℕ
max_middlewares = 10

abbrev pub login_route_path : Bytes
login_route_path = codes "/login"

-- An array of pointers with its first entries set, and null behind them.
abbrev pointers {ℓ} : {A : Type ℓ} → ℕ → List A → List (Option A)
pointers size entries = map some entries ++ replicate (size - length entries) none

abbrev route : Bytes → RouteHandler → List Bytes → List Middleware → Route
route path handler methods middlewares = record {
  path = path;
  handler = handler;
  allowed_methods = pointers max_methods methods;
  middlewares = pointers max_middlewares middlewares;
  method_count = 0;
  middleware_count = 0;
}

abbrev get_only : List Bytes
get_only = codes "GET" ∷ []

abbrev get_and_post : List Bytes
get_and_post = codes "GET" ∷ codes "POST" ∷ []

abbrev open_to_all : List Middleware
open_to_all = decode_url ∷ []

abbrev guarded : List Middleware
guarded = decode_url ∷ auth ∷ []

abbrev pub routes : List Route
routes =
    route (codes "/") handle_home get_only open_to_all
    ∷ route (codes "/accounts") handle_accounts get_only guarded
    ∷ route (codes "/api/accounts") handle_api_accounts get_and_post guarded
    ∷ route login_route_path handle_login get_and_post open_to_all
    ∷ route (codes "/register") handle_register_acocunt get_and_post open_to_all
    ∷ route (codes "/transfer") handle_transfer get_and_post guarded
    ∷ route (codes "/extract") handle_extract get_and_post guarded
    ∷ route (codes "/cards") handle_cards get_and_post guarded
    ∷ route (codes "/payments") handle_payments get_and_post guarded
    ∷ []
