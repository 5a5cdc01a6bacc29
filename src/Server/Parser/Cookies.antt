-- ===== src/Server/Parser/Cookies.antt =====
-- What `parse_req_cookies` reads from a header that a client writes.
use cbank_system.Prelude.{
  ◌+◌, ◌≤◌, ◌≡◌, ◌≢◌, refl, ap, sym, ◌∙◌, Bool, true, false, List, [], ◌∷◌, ◌++◌, some, length, All,
  All-append, length-append, append_assoc, append-nil, leb, ◌==◌, if◌then◌else◌, Bool-cases, inl,
  inr, arith,
}
use cbank_system.Prelude.Ret.{ok, fault}
use cbank_system.Text.{Bytes, Lacks, tokens, is_char}
use cbank_system.Text.Laws.{strchr-append, tokens-append, tokens-last}
use cbank_system.Utils.{ltrim, ltrim-blank}
use cbank_system.Server.Http.{Pair, HttpRequest, cookie, get_header, get_header_field_name}
use cbank_system.Server.Parser.{add_cookies, cut_header, read_cookies, parse_req_cookies}

-- A cookie that the header's syntax does not break.
abbrev pub IsCookie : Pair → Type 0
IsCookie (name, value) =
    Lacks b';' name
    × Lacks b'=' name
    × Lacks b';' value
    × (ltrim name ≡ name)
    × (ltrim value ≡ value)

-- A cookie, with a blank in front of all but the first.
abbrev cookie_token : Bool → Pair → Bytes
cookie_token true (name, value) = b' ' ∷ (name ++ b'=' ∷ value)
cookie_token false (name, value) = name ++ b'=' ∷ value

abbrev cookies_behind : Bool → List Pair → Bytes
cookies_behind blank [] = []
cookies_behind blank (c ∷ []) = cookie_token blank c
cookies_behind blank (c ∷ d ∷ cookies) =
    cookie_token blank c ++ b';' ∷ cookies_behind true (d ∷ cookies)

-- The value of the Cookie header that a client sends: "name=value; name=value".
abbrev pub cookie_header : List Pair → Bytes
cookie_header cookies = cookies_behind false cookies

abbrev cookie_tokens : Bool → List Pair → List Bytes
cookie_tokens blank [] = []
cookie_tokens blank (c ∷ cookies) = cookie_token blank c ∷ cookie_tokens true cookies

token-ne_nil : (blank : Bool) (c : Pair) → cookie_token blank c ≢ []
token-ne_nil true (name, value) = λ e. cc
token-ne_nil false ([], value) = λ e. cc
token-ne_nil false (n ∷ name, value) = λ e. cc

token-Lacks : (blank : Bool) (c : Pair) → IsCookie c → Lacks b';' (cookie_token blank c)
token-Lacks true (name, value) (h, _, k, _, _) =
    (omega arith, All-append (λ c. c ≢ b';') name (b'=' ∷ value) h (omega arith, k))
token-Lacks false (name, value) (h, _, k, _, _) =
    All-append (λ c. c ≢ b';') name (b'=' ∷ value) h (omega arith, k)

tokens-cookies :
    (blank : Bool) (cookies : List Pair)
    → All IsCookie cookies
    → tokens (is_char b';') (cookies_behind blank cookies) ≡ cookie_tokens blank cookies
tokens-cookies blank [] h = unfold tokens in refl
tokens-cookies blank (c ∷ []) (hc, _) =
    tokens-last b';' (cookie_token blank c) (token-ne_nil blank c) (token-Lacks blank c hc)
tokens-cookies blank (c ∷ d ∷ cookies) (hc, h) =
    tokens-append b';' (cookie_token blank c) _ (token-ne_nil blank c) (token-Lacks blank c hc)
    ∙ ap (λ t. cookie_token blank c ∷ t) (tokens-cookies true (d ∷ cookies) h)

-- One round of the loop.
add_one :
    (blank : Bool) (c : Pair) (seen : List Pair) (rest : List Bytes)
    → IsCookie c
    → add_cookies seen (cookie_token blank c ∷ rest)
      ≡ (if length seen == 19 then fault else add_cookies (seen ++ c ∷ []) rest)
unfolding add_cookies
add_one true (name, value) seen rest (_, h, _, t, u) =
    rw (strchr-append b'=' (b' ' ∷ name) value (omega arith, h), add_cookies)
      (rw (ltrim-blank name, t, u))
add_one false (name, value) seen rest (_, h, _, t, u) =
    rw (strchr-append b'=' name value h, add_cookies) (rw (t, u))

add_all :
    (blank : Bool) (seen cookies : List Pair)
    → All IsCookie cookies
    → length seen ≤ 19
    → add_cookies seen (cookie_tokens blank cookies)
      ≡ (if leb (length seen + length cookies) 19 then ok (seen ++ cookies) else fault)
unfolding add_cookies
add_all blank seen [] h few =
    let in_range : leb (length seen + 0) 19 ≡ true = ground arith in
    rw in_range (ap ok (sym (append-nil seen)))
add_all blank seen (c ∷ cookies) (hc, h) few =
    let sum = length-append seen (c ∷ []) in
    rw (add_one blank c seen (cookie_tokens true cookies) hc)
      (elim (Bool-cases (length seen == 19)) [
        | inl full ↦
            let over : leb (length seen + length (c ∷ cookies)) 19 ≡ false = ground arith in
            rw (full, over)
        | inr room ↦
            let same : leb (length (seen ++ c ∷ []) + length cookies) 19
                ≡ leb (length seen + length (c ∷ cookies)) 19 =
              ap (λ n. leb n 19) (omega arith) in
            rw (
              room,
              add_all true (seen ++ c ∷ []) cookies h (ground arith),
              same,
              append_assoc seen (c ∷ []) cookies,
            )
      ])

length_ne_zero : (headers : List Pair) → headers ≢ [] → (length headers == 0) ≡ false
length_ne_zero [] h = absurd (h refl)
length_ne_zero (x ∷ headers) h = ground arith

add_first :
    (cookies : List Pair)
    → All IsCookie cookies
    → add_cookies [] (cookie_tokens false cookies)
      ≡ (if leb (length cookies) 19 then ok cookies else fault)
add_first cookies h =
    add_all false [] cookies h (omega arith)
    ∙ ap (λ n. if leb n 19 then ok cookies else fault) (omega arith)

read_some :
    (req : HttpRequest) (cookies : List Pair)
    → All IsCookie cookies
    → read_cookies req (some (cookie_header cookies)) ≡ (
        if leb (length cookies) 19
        then ok (record req {
          headers = cut_header (get_header_field_name cookie) req.headers;
          cookies_list = cookies;
        })
        else fault)
unfolding read_cookies
read_some req cookies h =
    rw (tokens-cookies false cookies h, add_first cookies h)
      (elim (Bool-cases (leb (length cookies) 19)) [ inl few ↦ rw few | inr many ↦ rw many ])

-- A Cookie header that lists cookies, the usual way, is read as these cookies if there are at most
-- nineteen; with a twentieth the loop writes outside of the block that it has made smaller.
pub parse_req_cookies-cookie_header :
    (req : HttpRequest) (cookies : List Pair)
    → All IsCookie cookies
    → req.headers ≢ []
    → get_header req cookie ≡ some (cookie_header cookies)
    → parse_req_cookies req ≡ (
        if leb (length cookies) 19
        then ok (record req {
          headers = cut_header (get_header_field_name cookie) req.headers;
          cookies_list = cookies;
        })
        else fault)
unfolding parse_req_cookies
parse_req_cookies-cookie_header req cookies h some_header there =
    rw (length_ne_zero req.headers some_header, there) (read_some req cookies h)
