-- ===== src/Server/Start/Client.antt =====
-- A whole request, from its text to the handler.
use cbank_system.Prelude.{List, [], ◌++◌, take}
use cbank_system.Prelude.Ret.{Ret}
use cbank_system.Text.{Bytes}
use cbank_system.Server.Http.{Pair, HttpRequest, crlf, cookie, header_lines, get_header_field_name}
use cbank_system.Server.Parser.{cut_header}
use cbank_system.Server.Parser.RequestLine.{request_line}
use cbank_system.Server.Start.{empty_request}

-- The text of a request without a body.
abbrev pub request_text : Bytes → Bytes → Bytes → List Pair → Bytes
request_text method path version hs =
    request_line method path version ++ (crlf ++ (header_lines hs ++ (crlf ++ [])))

-- The request that the parser makes of it.
abbrev pub parsed_request : Bytes → Bytes → Bytes → List Pair → List Pair → HttpRequest
parsed_request method path version hs cookies = record empty_request {
  method = take 7 method;
  path = take 255 path;
  version = take 15 version;
  headers = cut_header (get_header_field_name cookie) hs;
  cookies_list = cookies;
}
