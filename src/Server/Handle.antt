-- ===== src/Server/Handle.antt =====
-- server/server.c: what `start` does with a request that it has parsed, up to the call of a handler.
pub mod Check
pub mod Access
pub mod Admission
use cbank_system.Prelude.{
  ℕ, zero, suc, Bool, List, [], ◌∷◌, Option, none, some, leb, ◌==◌, if◌then◌else◌,
}
use cbank_system.Prelude.Ret.{Ret, ok, fault, ◌>>=◌}
use cbank_system.Text.{Bytes, codes}
use cbank_system.Server.Http.{
  HttpRequest, HttpResponse, plain, html, add_body, make_res_first_line, add_content_type,
  send_http_response, redirect, http_unauthorized, http_not_found, http_method_not_allowed,
}
use cbank_system.Server.Router.{
  RouteHandler, Middleware, Route, RouteRegistry, RouteValidationResponse, HandlerErrorFlags,
  no_error_flag, not_found_flag, method_not_allowed_flag, get_route,
}
use cbank_system.Server.Routes.{login_route_path}
use cbank_system.Api.Middlewares.{call_middleware}

-- `struct HttpResponse res = {0};`
abbrev pub empty_response : HttpResponse
empty_response = record { version = []; status_code = 0; status_text = []; headers = []; body = [] }

-- What the client gets, or the handler that is called with the request and the response.
pub data Served : Type 0 where
  sent : Bytes → Served
  called : RouteHandler → HttpRequest → HttpResponse → Served

-- The loop over the middlewares either goes through or has answered the client.
pub data Outcome : Type 0 where
  passed : HttpRequest → HttpResponse → Outcome
  stopped : Bytes → Outcome

-- A response whose only header is the content type, plain text.
unfoldable pub send_plain_response : HttpResponse → ℕ → Ret Bytes
send_plain_response res code =
    send_http_response (add_content_type (make_res_first_line res code) plain)

-- The page of the template for unknown paths, which is read from disk, is an argument.
unfoldable pub send_404_response : Bytes → HttpResponse → Ret Bytes
send_404_response page res =
    send_http_response
      (add_body (add_content_type (make_res_first_line res http_not_found) html) page)

unfoldable pub send_refusal : Bytes → HandlerErrorFlags → Ret Served
send_refusal page no_error_flag = ok (sent [])
send_refusal page not_found_flag = send_404_response page empty_response >>= λ s. ok (sent s)
send_refusal page method_not_allowed_flag =
    send_plain_response empty_response http_method_not_allowed >>= λ s. ok (sent s)

-- The test of the response that a middleware leaves: a refused token sends the client to the login page.
unfoldable pub stop_or : HttpResponse → Ret Outcome → Ret Outcome
stop_or res go_on =
    if res.status_code == http_unauthorized
    then (send_http_response (redirect res login_route_path) >>= λ s. ok (stopped s))
    else if leb 400 res.status_code
    then (send_http_response res >>= λ s. ok (stopped s))
    else go_on

unfoldable pub call_handler : RouteHandler → Outcome → Served
call_handler handler (passed req res) = called handler req res
call_handler handler (stopped s) = sent s

module _ (hmac : Bytes → Bytes → Option (List ℕ)) (secret : Bytes) (now : ℕ) where
  -- The loop over the middlewares: those left of the count, and the array from here on.
  unfoldable pub run_middlewares :
      ℕ → List (Option Middleware) → HttpRequest → HttpResponse → Ret Outcome
  run_middlewares zero middlewares req res = ok (passed req res)
  run_middlewares (suc left) [] req res = fault
  run_middlewares (suc left) (none ∷ middlewares) req res = fault
  run_middlewares (suc left) (some m ∷ middlewares) req res =
      call_middleware hmac secret now m req res >>= λ p.
      stop_or (p.1) (run_middlewares left middlewares (p.0) (p.1))

  unfoldable pub serve_route : Bytes → HttpRequest → HandlerErrorFlags → Option Route → Ret Served
  serve_route page req flag none = send_refusal page flag
  serve_route page req flag (some route) =
      run_middlewares route.middleware_count route.middlewares req empty_response >>= λ outcome.
      ok (call_handler route.handler outcome)

  unfoldable pub handle_request : Bytes → RouteRegistry → HttpRequest → Ret Served
  handle_request page registry req =
      get_route registry req >>= λ answer. serve_route page req answer.error_flag answer.route
