-- ===== src/Server/Parser/RequestLine.antt =====
-- What `parse_req_line` reads.
use cbank_system.Prelude.{
  ℕ, ◌-◌, ◌<◌, ◌≡◌, ◌≢◌, refl, ap, ◌∙◌, true, not, List, [], ◌∷◌, ◌++◌, some, length, take, drop,
  any, All-append, length-append, append_assoc, ltb, ◌==◌, arith,
}
use cbank_system.Prelude.Ret.{ok}
use cbank_system.Text.{Bytes, Lacks, strstr, starts_with, tokens, is_char, take_while}
use cbank_system.Text.Laws.{strstr-behind, strstr_here, tokens-append, tokens-last}
use cbank_system.Server.Http.{HttpRequest, crlf}
use cbank_system.Server.Parser.{split_line, unterminated, set_parts, parse_req_line}

pub take-length {ℓ} : {A : Type ℓ} (l r : List A) → take (length l) (l ++ r) ≡ l
take-length [] r = refl
take-length (x ∷ l) r = ap (λ t. x ∷ t) (take-length l r)

drop-length {ℓ} : {A : Type ℓ} (l r : List A) → drop (length l) (l ++ r) ≡ r
drop-length [] r = refl
drop-length (x ∷ l) r = drop-length l r

take_front {ℓ} : {A : Type ℓ} (l r : List A) → take (length (l ++ r) - length r) (l ++ r) ≡ l
take_front l r =
    let sum = length-append l r in
    let size : length (l ++ r) - length r ≡ length l = omega arith in rw size (take-length l r)

crlf_here : (rest : Bytes) → strstr (crlf ++ rest) crlf ≡ some (crlf ++ rest)
unfolding starts_with
crlf_here rest = strstr_here crlf 13 (10 ∷ rest) refl

find_crlf :
    (line rest : Bytes) → Lacks 13 line → strstr (line ++ (crlf ++ rest)) crlf ≡ some (crlf ++ rest)
find_crlf line rest h = strstr-behind 13 (10 ∷ []) line (crlf ++ rest) h ∙ crlf_here rest

-- A line without a carriage return is split off.
pub split_line-crlf :
    (line rest : Bytes) → Lacks 13 line → split_line (line ++ (crlf ++ rest)) ≡ some (line, rest)
unfolding split_line
split_line-crlf line rest h =
    rw (find_crlf line rest h, split_line)
      (ap (λ l. some (l, rest)) (take_front line (crlf ++ rest)))

-- The words of a line that are separated by single blanks.
words :
    (method path version : Bytes)
    → (method ≢ []) × (path ≢ []) × (version ≢ [])
    → Lacks b' ' method × Lacks b' ' path × Lacks b' ' version
    → tokens (is_char b' ') (method ++ b' ' ∷ (path ++ b' ' ∷ version))
      ≡ method ∷ path ∷ version ∷ []
words method path version (n1, n2, n3) (l1, l2, l3) =
    tokens-append b' ' method (path ++ b' ' ∷ version) n1 l1
    ∙ ap (λ t. method ∷ t) (tokens-append b' ' path version n2 l2)
    ∙ ap (λ t. method ∷ path ∷ t) (tokens-last b' ' version n3 l3)

-- The line of a request with these words.
abbrev pub request_line : Bytes → Bytes → Bytes → Bytes
request_line method path version = method ++ b' ' ∷ (path ++ b' ' ∷ version)

Lacks-append : (b : ℕ) (l r : Bytes) → Lacks b l → Lacks b r → Lacks b (l ++ r)
Lacks-append b = All-append (λ c. c ≢ b)

has_zero : (junk behind : Bytes) → any (λ c. c == 0) (junk ++ 0 ∷ behind) ≡ true
has_zero [] behind = refl
has_zero (c ∷ junk) behind = ground (arith, has_zero junk behind)

up_to_zero :
    (junk behind : Bytes)
    → Lacks 0 junk
    → take_while (λ c. not (c == 0)) (junk ++ 0 ∷ behind) ≡ junk
unfolding take_while
up_to_zero [] behind h = refl
up_to_zero (c ∷ junk) behind (hc, h) = ground (arith, up_to_zero junk behind h)

ne_nil-append : (l r : Bytes) → l ≢ [] → (l ++ r) ≢ []
ne_nil-append [] r h = absurd (h refl)
ne_nil-append (c ∷ l) r h = λ e. cc

-- A line of three words, which fits its buffer, is read as these words, cut to their fields. The
-- buffer is not terminated: what the stack holds behind the line, up to a zero and without a blank,
-- is read as the end of the version.
pub parse_req_line-request_line :
    (stack junk behind method path version rest : Bytes) (req : HttpRequest)
    → (method ≢ []) × (path ≢ []) × (version ≢ [])
    → Lacks b' ' method × Lacks b' ' path × Lacks b' ' version
    → Lacks 13 (request_line method path version)
    → length (request_line method path version) < 512
    → drop (length (request_line method path version)) stack ≡ junk ++ 0 ∷ behind
    → Lacks 0 junk
    → Lacks b' ' junk
    → parse_req_line stack (request_line method path version ++ (crlf ++ rest)) req
      ≡ ok (record req {
        method = take 7 method;
        path = take 255 path;
        version = take 15 (version ++ junk);
      })
unfolding parse_req_line unterminated set_parts
parse_req_line-request_line stack junk behind method path version rest req (n1, n2, n3) (l1, l2, l3)
      one_line fits left_there no_zero no_blank =
    let line = request_line method path version in
    let short : ltb (length line) 512 ≡ true = ground arith in
    let joined : line ++ junk ≡ request_line method path (version ++ junk) = simp append_assoc in
    let split =
      words method path (version ++ junk) (n1, n2, ne_nil-append version junk n3)
        (l1, l2, Lacks-append b' ' version junk l3 no_blank) in
    rw
      (
        split_line-crlf line rest one_line,
        short,
        left_there,
        has_zero junk behind,
        up_to_zero junk behind no_zero,
        joined,
        split,
      )
      refl
