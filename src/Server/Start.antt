-- ===== src/Server/Start.antt =====
-- server/server.c: one round of the loop of `start`, on the bytes that were read from the client, up to
-- the first zero byte among them.
pub mod Client
mod Tests
use cbank_system.Prelude.{ℕ, ◌-◌, [], Option, length}
use cbank_system.Prelude.Ret.{Ret, ok, null, fault, ◌>>=◌, or_null}
use cbank_system.Text.{Bytes}
use cbank_system.Jwt.Payload.{no_claims}
use cbank_system.Server.Http.{HttpRequest, http_bad_request}
use cbank_system.Server.Router.{RouteRegistry}
use cbank_system.Server.Handle.{Served, sent, empty_response, send_plain_response, handle_request}
use cbank_system.Server.Parser.{
  split_line, parse_req_line, parse_req_headers, parse_req_cookies, parse_req_body,
}

abbrev pub client_buffer_size : ℕ
client_buffer_size = 16000

-- `struct HttpRequest req = {0};`
abbrev pub empty_request : HttpRequest
empty_request = record {
  method = [];
  path = [];
  version = [];
  headers = [];
  body = [];
  authenticated_jwt = no_claims;
  body_query_params_list = [];
  url_query_params_list = [];
  cookies_list = [];
}

-- The parts behind the request line, which is not looked at again.
unfoldable pub parse_rest : Bytes → HttpRequest → Ret HttpRequest
parse_rest client_buf req = do
  (line, headers_start) ← or_null (split_line client_buf)
  (body_start, with_headers) ← parse_req_headers headers_start req
  with_cookies ← parse_req_cookies with_headers
  parse_req_body (client_buffer_size - (length client_buf - length body_start)) body_start
      with_cookies

module _ (hmac : Bytes → Bytes → Option Bytes) (secret : Bytes) (now : ℕ) (page : Bytes)
    (registry : RouteRegistry) where
  unfoldable pub serve_parsed : Bytes → Ret HttpRequest → Ret Served
  serve_parsed client_buf null =
      send_plain_response empty_response http_bad_request >>= λ s. ok (sent s)
  serve_parsed client_buf fault = fault
  serve_parsed client_buf (ok req) =
      parse_rest client_buf req >>= handle_request hmac secret now page registry

  -- `stack` is what the buffer of `parse_req_line` holds.
  unfoldable pub serve_client : Bytes → Bytes → Ret Served
  serve_client stack client_buf =
      serve_parsed client_buf (parse_req_line stack client_buf empty_request)
