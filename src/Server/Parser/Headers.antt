-- ===== src/Server/Parser/Headers.antt =====
-- What `parse_req_headers` reads.
use cbank_system.Prelude.{
  ℕ, zero, suc, ◌+◌, ◌-◌, ◌≤◌, ◌<◌, ◌≡◌, ◌≢◌, refl, ap, sym, ◌∙◌, true, false, List, [], ◌∷◌, ◌++◌,
  some, length, All, All-append, length-append, take_of_le, append_assoc, append-nil, leb, ltb,
  ◌==◌, arith,
}
use cbank_system.Prelude.Ret.{ok}
use cbank_system.Text.{Bytes, codes, Lacks, strstr, strchr, starts_with}
use cbank_system.Text.Laws.{strstr-behind, strstr_here, strstr_step, strchr-append}
use cbank_system.Utils.{ltrim, ltrim-blank}
use cbank_system.Server.Http.{
  Pair, HttpRequest, crlf, header_lines, max_headers, max_key_len, max_value_len,
}
use cbank_system.Server.Parser.{split_line, add_header, cut_line, header_loop, parse_req_headers}
use cbank_system.Server.Parser.RequestLine.{take-length, split_line-crlf}

-- A header that the syntax does not break and that fits its fields.
abbrev pub IsHeader : Pair → Type 0
IsHeader (key, value) =
    (key ≢ [])
    × Lacks 13 key
    × Lacks b':' key
    × Lacks 13 value
    × (ltrim value ≡ value)
    × (length key < 128)
    × (length value < 1024)

abbrev header_line : Pair → Bytes
header_line (key, value) = key ++ (codes ": " ++ value)

header_lines-cons :
    (h : Pair) (hs : List Pair) (body : Bytes)
    → header_lines (h ∷ hs) ++ body ≡ header_line h ++ (crlf ++ (header_lines hs ++ body))
unfolding header_lines
header_lines-cons (key, value) hs body = simp append_assoc

header_line-Lacks : (h : Pair) → IsHeader h → Lacks 13 (header_line h)
header_line-Lacks (key, value) (_, l, _, m, _, _, _) =
    All-append (λ c. c ≢ 13) key (codes ": " ++ value) l (omega arith, (omega arith, m))

line_not_empty : (h : Pair) → (length (header_line h) == 0) ≡ false
line_not_empty ([], value) = ground arith
line_not_empty (c ∷ key, value) = ground arith

-- One header is read from its line.
add_header_line :
    (req : HttpRequest) (h : Pair)
    → IsHeader h
    → length req.headers < 32
    → add_header req (strchr b':' (header_line h)) ≡ record req { headers = req.headers ++ h ∷ [] }
unfolding add_header
add_header_line req (key, value) (_, _, l, _, t, short, narrow) room =
    let in_range : ltb (length req.headers) max_headers ≡ true = ground arith in
    rw (
      strchr-append b':' key (codes " " ++ value) l,
      add_header,
      in_range,
      ltrim-blank value,
      t,
      take_of_le (max_key_len - 1) key (omega arith),
      take_of_le (max_value_len - 1) value (omega arith),
    )

-- The loop, once every line is shorter than the room of the buffer.
read_headers :
    (fuel room : ℕ) (hs : List Pair) (body : Bytes) (req : HttpRequest)
    → All IsHeader hs
    → All (λ h. length (header_line h) < room) hs
    → length req.headers + length hs ≤ 32
    → length hs < fuel
    → header_loop fuel room (header_lines hs ++ (crlf ++ body)) req
      ≡ ok (body, record req { headers = req.headers ++ hs })
unfolding header_loop cut_line
read_headers zero room hs body req all_headers fits few enough = absurd (omega arith)
read_headers (suc fuel) room [] body req all_headers fits few enough =
    unfold header_lines in rw (split_line-crlf [] body tt, header_loop, append-nil req.headers)
read_headers (suc fuel) room (h ∷ hs) body req (is_header, all_headers) (fit, fits) few enough =
    let size = length-append req.headers (h ∷ []) in
    let behind = header_lines hs ++ (crlf ++ body) in
    let uncut : leb room (length (header_line h)) ≡ false = ground arith in
    rw
      (
        header_lines-cons h hs (crlf ++ body),
        split_line-crlf (header_line h) behind (header_line-Lacks h is_header),
        header_loop,
        line_not_empty h,
        cut_line,
        uncut,
        add_header_line req h is_header (omega arith),
        read_headers fuel room hs body (record req { headers = req.headers ++ h ∷ [] }) all_headers
            fits (omega arith) (omega arith),
      )
      (ap (λ l. ok (body, record req { headers = l })) (append_assoc req.headers (h ∷ []) hs))

not_here : (c : ℕ) (s : Bytes) → c ≢ 13 → starts_with (crlf ++ crlf) (crlf ++ c ∷ s) ≡ false
unfolding starts_with
not_here c s h = ground arith

not_at_feed : (s : Bytes) → starts_with (crlf ++ crlf) (10 ∷ s) ≡ false
unfolding starts_with
not_at_feed s = refl

end_here :
    (body : Bytes) → strstr (crlf ++ (crlf ++ body)) (crlf ++ crlf) ≡ some (crlf ++ (crlf ++ body))
unfolding starts_with
end_here body = strstr_here (crlf ++ crlf) 13 (10 ∷ (crlf ++ body)) refl

-- The search for the empty line goes past a line end that a header follows.
past_header :
    (h : Pair) (s : Bytes)
    → IsHeader h
    → strstr (crlf ++ (header_line h ++ s)) (crlf ++ crlf)
      ≡ strstr (header_line h ++ s) (crlf ++ crlf)
past_header ([], value) s is_header = absurd (is_header.0 refl)
past_header (c ∷ key, value) s (_, (hc, _), _, _, _, _, _) =
    strstr_step (crlf ++ crlf) 13 _ (not_here c _ hc)
    ∙ strstr_step (crlf ++ crlf) 10 _ (not_at_feed _)

-- The empty line behind the headers is the first one.
find_end :
    (h : Pair) (hs : List Pair) (body : Bytes)
    → All IsHeader (h ∷ hs)
    → strstr (header_lines (h ∷ hs) ++ (crlf ++ body)) (crlf ++ crlf)
      ≡ some (crlf ++ (crlf ++ body))
find_end h [] body (is_header, _) = rw (header_lines-cons h [] (crlf ++ body)) (
    strstr-behind 13 _ (header_line h) _ (header_line-Lacks h is_header)
    ∙ unfold header_lines in end_here body)
find_end h (g ∷ hs) body (is_header, (is_next, all_headers)) =
    rw (header_lines-cons h (g ∷ hs) (crlf ++ body)) (
      strstr-behind 13 _ (header_line h) _ (header_line-Lacks h is_header)
      ∙ ap (λ s. strstr (crlf ++ s) (crlf ++ crlf)) (header_lines-cons g hs (crlf ++ body))
      ∙ past_header g _ is_next
      ∙ ap (λ s. strstr s (crlf ++ crlf)) (sym (header_lines-cons g hs (crlf ++ body)))
      ∙ find_end g hs body (is_next, all_headers))

length-header_lines :
    (h : Pair) (hs : List Pair)
    → length (header_lines (h ∷ hs)) ≡ length (header_line h) + 2 + length (header_lines hs)
unfolding header_lines
length-header_lines (key, value) hs =
    let behind = crlf ++ header_lines hs in
    omega (
      arith,
      length-append key (codes ": " ++ (value ++ behind)),
      length-append value behind,
      length-append key (codes ": " ++ value),
    )

lines_below :
    (room : ℕ) (hs : List Pair)
    → length (header_lines hs) ≤ room + 1
    → All (λ h. length (header_line h) < room) hs
lines_below room [] fits = tt
lines_below room (h ∷ hs) fits =
    let size = length-header_lines h hs in (omega arith, lines_below room hs (omega arith))

headers_le_bytes : (hs : List Pair) → length hs ≤ length (header_lines hs)
headers_le_bytes [] = omega arith
headers_le_bytes (h ∷ hs) = omega (arith, length-header_lines h hs, headers_le_bytes hs)

-- At least two and at most thirty-two headers, each on a line of its own and followed by an empty
-- line, are read as they are, and the body starts behind the empty line.
pub parse_req_headers-header_lines :
    (h g : Pair) (hs : List Pair) (body : Bytes) (req : HttpRequest)
    → All IsHeader (h ∷ g ∷ hs)
    → length (h ∷ g ∷ hs) ≤ 32
    → parse_req_headers (header_lines (h ∷ g ∷ hs) ++ (crlf ++ body)) req
      ≡ ok (body, record req { headers = h ∷ g ∷ hs })
unfolding parse_req_headers
parse_req_headers-header_lines h g hs body req all_headers few =
    let text = header_lines (h ∷ g ∷ hs) ++ (crlf ++ body) in
    let room = length text - length (crlf ++ (crlf ++ body)) in
    let size = length-append (header_lines (h ∷ g ∷ hs)) (crlf ++ body) in
    let size_h = length-header_lines h (g ∷ hs) in
    let size_g = length-header_lines g hs in
    let count = headers_le_bytes (h ∷ g ∷ hs) in
    let fits : All (λ x. length (header_line x) < room) (h ∷ g ∷ hs) =
      (omega arith, lines_below room (g ∷ hs) (omega arith)) in
    rw (find_end h (g ∷ hs) body all_headers, parse_req_headers)
      (read_headers (suc (length text)) room (h ∷ g ∷ hs) body (record req { headers = [] })
        all_headers fits (omega arith) (omega arith))

cut_one :
    (key value : Bytes) (c : ℕ) (room : ℕ)
    → room ≡ length (header_line (key, value ++ c ∷ []))
    → cut_line room (header_line (key, value ++ c ∷ [])) ≡ header_line (key, value)
unfolding cut_line
cut_one key value c room same =
    let split : header_line (key, value ++ c ∷ []) ≡ header_line (key, value) ++ c ∷ [] =
      simp append_assoc in
    let size = length-append (header_line (key, value)) (c ∷ []) in
    let whole = same ∙ ap length split in
    let cut : leb room (length (header_line (key, value) ++ c ∷ [])) ≡ true = ground arith in
    let left : room - 1 ≡ length (header_line (key, value)) = omega arith in
    rw (split, cut, left) (take-length (header_line (key, value)) (c ∷ []))

find_end_single :
    (h : Pair) (body : Bytes)
    → Lacks 13 (header_line h)
    → strstr (header_lines (h ∷ []) ++ (crlf ++ body)) (crlf ++ crlf)
      ≡ some (crlf ++ (crlf ++ body))
find_end_single h body lacks =
    rw (header_lines-cons h [] (crlf ++ body))
      (strstr-behind 13 _ (header_line h) _ lacks ∙ unfold header_lines in end_here body)

header_lines_one :
    (h : Pair) (body : Bytes)
    → header_lines (h ∷ []) ++ (crlf ++ body) ≡ header_line h ++ (crlf ++ (crlf ++ body))
unfolding header_lines
header_lines_one h body = header_lines-cons h [] (crlf ++ body)

end_round :
    (fuel room : ℕ) (body : Bytes) (req : HttpRequest)
    → 1 ≤ fuel
    → header_loop fuel room (crlf ++ body) req ≡ ok (body, req)
unfolding header_loop
end_round zero room body req enough = absurd (omega arith)
end_round (suc fuel) room body req enough = rw (split_line-crlf [] body tt, header_loop)

-- One round of the loop, in front of the empty line.
last_round :
    (fuel room : ℕ) (h g : Pair) (body : Bytes) (req : HttpRequest)
    → 1 ≤ fuel
    → Lacks 13 (header_line h)
    → cut_line room (header_line h) ≡ header_line g
    → IsHeader g
    → header_loop
        (suc fuel)
        room
        (header_lines (h ∷ []) ++ (crlf ++ body))
        (record req { headers = [] })
      ≡ ok (body, record req { headers = g ∷ [] })
unfolding header_loop
last_round fuel room h g body req enough lacks cut is_header =
    let split =
      ap split_line (header_lines_one h body)
      ∙ split_line-crlf (header_line h) (crlf ++ body) lacks in
    rw
      (
        split,
        header_loop,
        line_not_empty h,
        cut,
        add_header_line (record req { headers = [] }) g is_header (omega arith),
      )
      (end_round fuel room body (record req { headers = g ∷ [] }) enough)

-- A single header, with at least one byte behind a value that is well formed, loses that last byte,
-- which is no carriage return: the room of the buffer is the length of the headers.
pub parse_req_headers_single :
    (key value : Bytes) (c : ℕ) (body : Bytes) (req : HttpRequest)
    → IsHeader (key, value)
    → c ≢ 13
    → parse_req_headers (header_lines ((key, value ++ c ∷ []) ∷ []) ++ (crlf ++ body)) req
      ≡ ok (body, record req { headers = (key, value) ∷ [] })
unfolding parse_req_headers
parse_req_headers_single key value c body req is_header other =
    let h : Pair = (key, value ++ c ∷ []) in
    let text = header_lines (h ∷ []) ++ (crlf ++ body) in
    let room = length text - length (crlf ++ (crlf ++ body)) in
    let size = length-append (header_lines (h ∷ [])) (crlf ++ body) in
    let size_h = length-header_lines h [] in
    let no_lines : length (header_lines []) ≡ 0 = unfold header_lines in refl in
    let split : header_line h ≡ header_line (key, value) ++ c ∷ [] = simp append_assoc in
    let lacks : Lacks 13 (header_line h) = rw split (
      All-append (λ b. b ≢ 13) (header_line (key, value)) (c ∷ [])
        (header_line-Lacks (key, value) is_header) (other, tt)) in
    rw (find_end_single h body lacks, parse_req_headers)
      (last_round (length text) room h (key, value) body req (omega arith) lacks
        (cut_one key value c room (omega arith)) is_header)
