-- ===== src/Http/Messages/Framing.antt =====
-- How a reader finds the lines and the body of what `dump` of East/http/Http.cc writes.
use mathlib.Core.List.{append_assoc, append-nil}
use east.Common.{
  ℕ, ◌≡◌, refl, sym, ap, ◌∙◌, Bool, true, false, ◌||◌, Bool-cases, List, [], ◌∷◌, ◌++◌, inl, inr,
  if◌then◌else◌, ◌==◌, length, All,
}
use east.Common.Texts.{codes}
use east.Address.{is_same}
use east.Http.{MapType, strcasecmp}
use east.Http.Messages.{
  HttpReq, HttpResp, crlf, decimal, close_text, header_texts, body_text, request_line, status_line,
  dump_request, dump_response,
}

-- The lines of a head, and what stands behind the empty one.
abbrev ended : List ℕ → List ℕ → List (List ℕ) × List ℕ → List (List ℕ) × List ℕ
ended [] behind later = ([], behind)
ended (c ∷ line) behind (lines, body) = ((c ∷ line) ∷ lines, body)

abbrev scan : List ℕ → Bool → List ℕ → List (List ℕ) × List ℕ
scan [] after_cr line = ([], [])
scan (c ∷ cs) true line =
    let later = scan cs false (if c == 10 then [] else line ++ 13 ∷ c ∷ []) in
    if c == 10 then ended line cs later else later
scan (c ∷ cs) false line = scan cs (c == 13) (if c == 13 then line else line ++ c ∷ [])

abbrev pub read_message : List ℕ → List (List ℕ) × List ℕ
read_message text = scan text false []

abbrev pub header_line : List ℕ → List ℕ → List ℕ
header_line key val = key ++ (codes ":" ++ val)

-- The headers but the one on the connection.
abbrev pub header_lines : MapType → List (List ℕ)
header_lines [] = []
header_lines ((key, val) ∷ m) =
    let rest = header_lines m in
    if is_same (strcasecmp key (codes "connection")) then rest else header_line key val ∷ rest

abbrev pub length_lines : List ℕ → List (List ℕ)
length_lines [] = []
length_lines (c ∷ body) = (codes "content-length: " ++ decimal (length (c ∷ body))) ∷ []

abbrev pub request_lines : HttpReq → List (List ℕ)
request_lines r =
    request_line r ∷ close_text r.close ∷ header_lines r.headers ++ length_lines r.body

abbrev pub response_lines : HttpResp → List (List ℕ)
response_lines r =
    status_line r ∷ header_lines r.resp_headers
    ++ close_text r.resp_close ∷ length_lines r.resp_body

abbrev pub has_cr : List ℕ → Bool
has_cr [] = false
has_cr (x ∷ xs) = (x == 13) || has_cr xs

-- Not empty, and without a carriage return.
abbrev pub IsLine : List ℕ → Type 0
IsLine [] = ⊥
IsLine (c ∷ line) = has_cr (c ∷ line) ≡ false

render : List (List ℕ) → List ℕ → List ℕ
render [] body = crlf ++ body
render (line ∷ lines) body = line ++ (crlf ++ render lines body)

or_neither : (a b : Bool) → a || b ≡ false → (a ≡ false) × (b ≡ false)
or_neither false false h = (refl, refl)
or_neither false true h = absurd (cc (h))
or_neither true b h = absurd (cc (h))

scan_line :
    (line rest so_far : List ℕ)
    → has_cr line ≡ false
    → scan (line ++ 13 ∷ 10 ∷ rest) false so_far ≡ ended (so_far ++ line) rest (scan rest false [])
scan_line [] rest so_far h = ap (λ l. ended l rest (scan rest false [])) (sym (append-nil so_far))
scan_line (c ∷ line) rest so_far h =
    let (e, d) = or_neither (c == 13) (has_cr line) h in
    rw (e, scan)
      (scan_line line rest (so_far ++ c ∷ []) d
        ∙ ap (λ l. ended l rest (scan rest false [])) (append_assoc so_far (c ∷ []) line))

read-render :
    (lines : List (List ℕ)) (body : List ℕ)
    → All IsLine lines
    → read_message (render lines body) ≡ (lines, body)
unfolding render
read-render [] body h = refl
read-render ([] ∷ lines) body (h, hs) = absurd h
read-render ((c ∷ line) ∷ lines) body (h, hs) =
    scan_line (c ∷ line) (render lines body) [] h
    ∙ ap (ended (c ∷ line) (render lines body)) (read-render lines body hs)

colon_line :
    (key colon val rest more : List ℕ)
    → (key ++ (colon ++ (val ++ (crlf ++ rest)))) ++ more
      ≡ (key ++ (colon ++ val)) ++ (crlf ++ (rest ++ more))
colon_line key colon val rest more =
    rw
      (
        append_assoc key (colon ++ (val ++ (crlf ++ rest))) more,
        append_assoc colon (val ++ (crlf ++ rest)) more,
        append_assoc val (crlf ++ rest) more,
        append_assoc key (colon ++ val) (crlf ++ (rest ++ more)),
        append_assoc colon val (crlf ++ (rest ++ more)),
      )
      refl

header-render :
    (m : MapType) (more : List ℕ) (lines : List (List ℕ)) (body : List ℕ)
    → more ≡ render lines body
    → header_texts m ++ more ≡ render (header_lines m ++ lines) body
unfolding render
header-render [] more lines body e = e
header-render ((key, val) ∷ m) more lines body e =
    elim (Bool-cases (is_same (strcasecmp key (codes "connection")))) [
      | inl s ↦ rw (s) (header-render m more lines body e)
      | inr s ↦ rw (s) (
          colon_line key (codes ":") val (header_texts m) more
          ∙ ap (λ t. header_line key val ++ (crlf ++ t)) (header-render m more lines body e))
    ]

body-render : (body : List ℕ) → body_text body ≡ render (length_lines body) body
unfolding render
body-render [] = refl
body-render (c ∷ body) = sym (
    append_assoc (codes "content-length: ") (decimal (length (c ∷ body)))
      (crlf ++ (crlf ++ c ∷ body)))

-- A request is read back line by line, the request line in front, then the line on the connection and one line for
-- each header but the one on the connection, and at the end the length of a body that is not empty; behind the
-- empty line stands the body. No line of the head may be empty or have a carriage return in it.
pub read-dump_request :
    (r : HttpReq)
    → All IsLine (request_lines r)
    → read_message (dump_request r) ≡ (request_lines r, r.body)
unfolding dump_request render
read-dump_request r h =
    ap (λ t. read_message (request_line r ++ (crlf ++ (close_text r.close ++ (crlf ++ t)))))
      (header-render r.headers (body_text r.body) (length_lines r.body) r.body (body-render r.body))
    ∙ read-render (request_lines r) r.body h

-- The same for a response, whose line on the connection stands behind its headers.
pub read-dump_response :
    (r : HttpResp)
    → All IsLine (response_lines r)
    → read_message (dump_response r) ≡ (response_lines r, r.resp_body)
unfolding dump_response render
read-dump_response r h =
    ap (λ t. read_message (status_line r ++ (crlf ++ t)))
      (header-render r.resp_headers (close_text r.resp_close ++ (crlf ++ body_text r.resp_body))
        (close_text r.resp_close ∷ length_lines r.resp_body) r.resp_body
        (ap (λ t. close_text r.resp_close ++ (crlf ++ t)) (body-render r.resp_body)))
    ∙ read-render (response_lines r) r.resp_body h
