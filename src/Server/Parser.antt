-- ===== src/Server/Parser.antt =====
-- server/http_parser.c: the parts of a request. Texts are C strings; heap blocks are granted.
pub mod RequestLine
pub mod Cookies
pub mod Headers
use cbank_system.Prelude.{
  ℕ, zero, suc, ◌+◌, ◌-◌, Bool, true, false, not, ◌&&◌, ◌||◌, List, [], ◌∷◌, ◌++◌, Option, none,
  some, length, take, drop, any, leb, ltb, ◌==◌, if◌then◌else◌,
}
use cbank_system.Prelude.Int.{ℤ, pos, negsuc}
use cbank_system.Prelude.Ret.{Ret, ok, null, fault, ◌>>=◌, ◌>>◌, guard, or_null}
use cbank_system.Text.{Bytes, codes, case_eq, strstr, strchr, tokens, is_char, take_while, atol}
use cbank_system.Utils.{ltrim}
use cbank_system.Server.Http.{
  Pair, HttpRequest, crlf, cookie, content_length, get_header, get_header_field_name, max_headers,
  max_key_len, max_value_len, body_len,
}
use cbank_system.Server.Url.{cut_up}

-- `strstr(s, "\r\n")`: the text in front of the first line end, and the text behind it.
unfoldable pub split_line : Bytes → Option (List ℕ × List ℕ)
split_line s = elim (strstr s crlf) [
  | none ↦ none
  | some behind ↦ some (take (length s - length behind) s, drop 2 behind)
]

-- What a buffer on the stack holds as a C string once `line` is copied to its start without a zero:
-- it goes on with what was there, up to a zero, which must be somewhere in it.
unfoldable pub unterminated : Bytes → Bytes → Ret Bytes
unterminated line stack =
    if any (λ c. c == 0) (drop (length line) stack)
    then ok (line ++ take_while (λ c. not (c == 0)) (drop (length line) stack))
    else fault

-- The loop over the words of the line, which stops at a fourth one.
unfoldable pub set_parts : HttpRequest → List Bytes → Ret HttpRequest
set_parts req (method ∷ path ∷ version ∷ rest) =
    ok (record req { method = take 7 method; path = take 255 path; version = take 15 version })
set_parts req _ = null

-- `stack` is what the 512 bytes of `_tmp_line_buf` hold when the function is entered.
unfoldable pub parse_req_line : Bytes → Bytes → HttpRequest → Ret HttpRequest
parse_req_line stack req_buf req = do
  (line, rest) ← or_null (split_line req_buf)
  guard (ltb (length line) 512)
  text ← unterminated line stack
  set_parts req (tokens (is_char b' ') text)

-- One header: its line is cut to the room of the buffer; a line without a colon, or past the
-- thirty-second header, is passed over.
unfoldable pub add_header : HttpRequest → Option (List ℕ × List ℕ) → HttpRequest
add_header req none = req
add_header req (some (key, value)) =
    if ltb (length req.headers) max_headers
    then record req {
      headers =
          req.headers ++ (take (max_key_len - 1) key, take (max_value_len - 1) (ltrim value)) ∷ [];
    }
    else req

unfoldable pub cut_line : ℕ → Bytes → Bytes
cut_line headers_len line =
    if leb headers_len (length line) then take (headers_len - 1) line else line

-- The loop over the lines, on fuel: each round goes on behind a line end. The result is the place
-- where the body starts. When no line end is left, it is where the last line starts.
unfoldable pub header_loop : ℕ → ℕ → Bytes → HttpRequest → Ret (Bytes × HttpRequest)
header_loop zero headers_len req_line req = fault
header_loop (suc fuel) headers_len req_line req = elim (split_line req_line) [
  | none ↦ ok (req_line, req)
  | some (line, rest) ↦
      let later =
        header_loop fuel headers_len rest
          (add_header req (strchr b':' (cut_line headers_len line))) in
      if length line == 0 then ok (rest, req) else later
]

-- The headers end at an empty line; without one a null pointer is subtracted from.
unfoldable pub parse_req_headers : Bytes → HttpRequest → Ret (Bytes × HttpRequest)
parse_req_headers header_start req = elim (strstr header_start (crlf ++ crlf)) [
  | none ↦ fault
  | some behind ↦
      header_loop (suc (length header_start)) (length header_start - length behind) header_start
        (record req { headers = [] })
]

-- The loop over the cookies. At the twentieth `realloc` is given 40 bytes for 40 cookies, and the
-- cookie is written outside of the block.
unfoldable pub add_cookies : List Pair → List Bytes → Ret (List Pair)
add_cookies cookies [] = ok cookies
add_cookies cookies (token ∷ rest) = elim (strchr b'=' token) [
  | none ↦ add_cookies cookies rest
  | some (name, value) ↦
      let later = add_cookies (cookies ++ (ltrim name, ltrim value) ∷ []) rest in
      if length cookies == 19 then fault else later
]

-- The loop cuts up the value of the header that it reads: the first one of that name.
unfoldable pub cut_header : Bytes → List Pair → List Pair
cut_header name [] = []
cut_header name ((key, value) ∷ headers) =
    let later = cut_header name headers in
    if case_eq key name then (key, cut_up (is_char b';') value) ∷ headers else (key, value) ∷ later

unfoldable pub read_cookies : HttpRequest → Option (List ℕ) → Ret HttpRequest
read_cookies req none = ok (record req { cookies_list = [] })
read_cookies req (some header) = do
  cookies ← add_cookies [] (tokens (is_char b';') header)
  ok (record req {
    headers = cut_header (get_header_field_name cookie) req.headers;
    cookies_list = cookies;
  })

unfoldable pub parse_req_cookies : HttpRequest → Ret HttpRequest
parse_req_cookies req =
    if length req.headers == 0 then ok req else read_cookies req (get_header req cookie)

-- `room` is what is left of the client's buffer from the body on; the buffer is filled up with zeros.
unfoldable pub copy_body : ℕ → Bytes → HttpRequest → ℤ → Ret HttpRequest
copy_body room req_start req (negsuc n) = ok req
copy_body room req_start req (pos len) =
    if ltb 0 len && ltb len body_len
    then if leb len room then ok (record req { body = take len req_start }) else fault
    else ok req

unfoldable pub parse_req_body : ℕ → Bytes → HttpRequest → Ret HttpRequest
parse_req_body room req_start req = elim (get_header req content_length) [
  | none ↦ ok req
  | some len ↦ copy_body room req_start req (atol len)
]
