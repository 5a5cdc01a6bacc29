-- ===== src/Server/Http.antt =====
-- server/http_parser.h, server/http_utils.c and the response builders of server/router.c.
-- A header, a cookie and a query parameter are pairs of a name and a value.
use cbank_system.Prelude.{
  ℕ, ◌-◌, List, [], ◌∷◌, ◌++◌, Option, none, some, length, take, leb, ltb, ◌==◌, if◌then◌else◌,
}
use cbank_system.Prelude.Ret.{Ret, ok, fault}
use cbank_system.Text.{Bytes, codes, bytes_eq, case_eq, print_nat}
use cbank_system.Jwt.Payload.{JwtData}

abbrev pub Pair : Type 0
Pair = List ℕ × List ℕ

pub data HttpHeaderField : Type 0 where
  host content_type content_length user_agent accept cookie connection unknown authorization
        location count :
      HttpHeaderField

pub data ContentType : Type 0 where
  html json plain css javascript xml form_urlencoded multipart_form_data octet_stream unknown_type :
      ContentType

pub record HttpRequest : Type 0 where
  pub method : Bytes
  pub path : Bytes
  pub version : Bytes
  pub headers : List Pair
  pub body : Bytes
  pub authenticated_jwt : JwtData
  pub body_query_params_list : List Pair
  pub url_query_params_list : List Pair
  pub cookies_list : List Pair

-- A status code of 0 is that of a response not yet made.
pub record HttpResponse : Type 0 where
  pub version : Bytes
  pub status_code : ℕ
  pub status_text : Bytes
  pub headers : List Pair
  pub body : Bytes

abbrev pub max_headers : ℕ
max_headers = 32

abbrev pub max_key_len : ℕ
max_key_len = 128

abbrev pub max_value_len : ℕ
max_value_len = 1024

abbrev pub body_len : ℕ
body_len = 18000

abbrev pub http_ok : ℕ
http_ok = 200

abbrev pub http_created : ℕ
http_created = 201

abbrev pub http_no_content : ℕ
http_no_content = 204

abbrev pub http_redirect : ℕ
http_redirect = 302

abbrev pub http_bad_request : ℕ
http_bad_request = 400

abbrev pub http_unauthorized : ℕ
http_unauthorized = 401

abbrev pub http_forbidden : ℕ
http_forbidden = 403

abbrev pub http_not_found : ℕ
http_not_found = 404

abbrev pub http_method_not_allowed : ℕ
http_method_not_allowed = 405

abbrev pub http_internal_server_error : ℕ
http_internal_server_error = 500

unfoldable pub get_content_type_string : ContentType → Bytes
get_content_type_string html = codes "text/html; charset=UTF-8"
get_content_type_string json = codes "application/json; charset=UTF-8"
get_content_type_string plain = codes "text/plain; charset=UTF-8"
get_content_type_string css = codes "text/css; charset=UTF-8"
get_content_type_string javascript = codes "application/javascript; charset=UTF-8"
get_content_type_string xml = codes "application/xml; charset=UTF-8"
get_content_type_string form_urlencoded = codes "application/x-www-form-urlencoded"
get_content_type_string multipart_form_data = codes "multipart/form-data"
get_content_type_string octet_stream = codes "application/octet-stream"
get_content_type_string unknown_type = codes "application/octet-stream"

unfoldable pub get_status_text : ℕ → Bytes
get_status_text code =
    if code == http_ok
    then codes "OK"
    else if code == http_created
    then codes "Created"
    else if code == http_no_content
    then codes "No Content"
    else if code == http_bad_request
    then codes "Bad Request"
    else if code == http_unauthorized
    then codes "Unauthorized"
    else if code == http_forbidden
    then codes "Forbidden"
    else if code == http_not_found
    then codes "Not Found"
    else if code == http_method_not_allowed
    then codes "Method Not Allowed"
    else if code == http_internal_server_error
    then codes "Internal Server Error"
    else if code == http_redirect
    then codes "Found"
    else codes "Unknown"

unfoldable pub get_header_field_name : HttpHeaderField → Bytes
get_header_field_name host = codes "Host"
get_header_field_name content_type = codes "Content-Type"
get_header_field_name content_length = codes "Content-Length"
get_header_field_name user_agent = codes "User-Agent"
get_header_field_name accept = codes "Accept"
get_header_field_name cookie = codes "Cookie"
get_header_field_name connection = codes "Connection"
get_header_field_name unknown = codes "Unknown"
get_header_field_name authorization = codes "Authorization"
get_header_field_name location = codes "Location"
get_header_field_name count = []

-- The loops of `get_header` and `get_res_header`: the first header of that name, in any case.
unfoldable pub find_header : List Pair → Bytes → Option (List ℕ)
find_header [] name = none
find_header ((key, value) ∷ headers) name =
    if case_eq key name then some value else find_header headers name

unfoldable pub get_header : HttpRequest → HttpHeaderField → Option (List ℕ)
get_header req field = find_header req.headers (get_header_field_name field)

unfoldable pub get_res_header : HttpResponse → HttpHeaderField → Option (List ℕ)
get_res_header res field = find_header res.headers (get_header_field_name field)

-- The first cookie of that very name.
unfoldable pub find_cookie : List Pair → Bytes → Option (List ℕ)
find_cookie [] name = none
find_cookie ((key, value) ∷ cookies) name =
    if bytes_eq name key then some value else find_cookie cookies name

unfoldable pub get_req_cookie : HttpRequest → Bytes → Option (List ℕ)
get_req_cookie req name = find_cookie req.cookies_list name

-- A header past the thirty-second is dropped; a long name or value is cut.
unfoldable pub add_res_header : HttpResponse → Bytes → Bytes → HttpResponse
add_res_header res key value = if leb max_headers (length res.headers) then res else record res {
  headers = res.headers ++ (take (max_key_len - 1) key, take (max_value_len - 1) value) ∷ [];
}

-- `snprintf` cuts the text to its buffer of 1024 bytes.
unfoldable pub add_res_token_cookie : HttpResponse → Bytes → HttpResponse
add_res_token_cookie res token = add_res_header res (codes "Set-Cookie") (
    take 1023
      (codes "token=" ++ (token ++ codes "; Path=/; HttpOnly; SameSite=Strict; Max-Age=3600")))

unfoldable pub make_res_first_line : HttpResponse → ℕ → HttpResponse
make_res_first_line res code = record res {
  version = codes "HTTP/1.1";
  status_code = code;
  status_text = get_status_text code;
}

unfoldable pub add_content_type : HttpResponse → ContentType → HttpResponse
add_content_type res type =
    add_res_header res (get_header_field_name content_type) (get_content_type_string type)

unfoldable pub add_content_len : HttpResponse → ℕ → HttpResponse
add_content_len res len = add_res_header res (get_header_field_name content_length) (print_nat len)

unfoldable pub add_body : HttpResponse → Bytes → HttpResponse
add_body res text = record res { body = take (body_len - 1) text }

unfoldable pub make_non_authorized : HttpResponse → HttpResponse
make_non_authorized res =
    add_body (add_content_type (make_res_first_line res http_unauthorized) plain)
      (codes "Unauthorized")

abbrev pub crlf : Bytes
crlf = 13 ∷ 10 ∷ []

-- The loop over the headers: "key: value" and a line end for each.
unfoldable pub header_lines : List Pair → Bytes
header_lines [] = []
header_lines ((key, value) ∷ headers) =
    key ++ (codes ": " ++ (value ++ (crlf ++ header_lines headers)))

-- The status line, the headers and the empty line.
unfoldable pub response_head : HttpResponse → Bytes
response_head res =
    res.version
    ++ (codes " "
        ++ (print_nat res.status_code
            ++ (codes " " ++ (res.status_text ++ (crlf ++ (header_lines res.headers ++ crlf))))))

-- The bytes that `send_http_response` writes to the client: the head, and the body unless it is a
-- redirection. A head that does not fit the buffer of 2048 bytes is written past its end.
unfoldable pub send_http_response : HttpResponse → Ret Bytes
send_http_response res =
    if ltb (length (response_head res)) 2048
    then ok (response_head res ++ (if res.status_code == http_redirect then [] else res.body))
    else fault

unfoldable pub redirect : HttpResponse → Bytes → HttpResponse
redirect res target =
    add_res_header (make_res_first_line res http_redirect) (get_header_field_name location) target
