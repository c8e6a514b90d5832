-- ===== src/Http/Receiving.antt =====
-- `HttpSession::recvRequest` of East/http/HttpSession.cc, and `HttpConnection::recvResponse` of
-- East/http/HttpConnection.cc for a body that is not chunked. The parsers are generated: `execute`, the questions that
-- are asked of a parser and the length of the body that it found are parameters.
pub mod Bodies
pub mod Heads
mod Tests
use mathlib.Core.Option
use east.Common.{
  ℕ, zero, suc, ◌+◌, ◌-◌, ◌%◌, Bool, true, false, Option, none, some, List, [], ◌∷◌, ◌++◌, length,
  take, drop, replicate, if◌then◌else◌, ltb, leb, ◌==◌, Outcome, ok, throws, undefined, ◌>>=◌,
}
use east.Stream.{Channel, piece, after_piece, Fixed, is_positive, read_fix_size}

-- The parser behind the empty line, what stands in the buffer, and the channel.
pub record Head (Parser : Type 0) : Type 0 where
  pub parser : Parser
  pub buffered : List ℕ
  pub channel : Channel

module _ {Parser : Type 0} (execute : Parser → List ℕ → Parser × ℕ)
    (has_error is_finished : Parser → Bool) (buf_size : ℕ) where
  -- What follows a call of `execute` on the buffered: null, the end of the loop, or another round.
  abbrev pub after_execute :
      List ℕ
      → Channel
      → (Parser → List ℕ → Option (Head Parser))
      → Parser × ℕ
      → Option (Head Parser)
  after_execute buffered channel again (parser, parse_len) =
      let buffered' = drop parse_len buffered in
      if has_error parser
      then none
      else if length buffered' == buf_size
      then none
      else if is_finished parser
      then some (record { parser = parser; buffered = buffered'; channel = channel })
      else again parser buffered'

  abbrev pub after_read :
      List ℕ
      → List ℕ
      → Channel
      → (Parser → List ℕ → Option (Head Parser))
      → Parser
      → Option (Head Parser)
  after_read buffered [] channel again parser = none
  after_read buffered (b ∷ bytes) channel again parser =
      after_execute (buffered ++ b ∷ bytes) channel again (execute parser (buffered ++ b ∷ bytes))

  -- The first loop, where null is `none` and the stream is closed.
  abbrev pub recv_head : List ℕ → List ℕ → Parser → List ℕ → Option (Head Parser)
  recv_head [] input parser buffered = none
  recv_head (size ∷ sizes) input parser buffered =
      let n = buf_size - length buffered in
      after_read buffered (piece size n input)
        (record { sizes = sizes; input = after_piece size n input })
        (recv_head sizes (after_piece size n input)) parser

-- The body of the message: not set, or set. It is set if the `int` of `readFixSize` is positive.
abbrev pub Body : Type 0
Body = Option (List ℕ)

abbrev pub set_body : (List ℕ → Body) → Fixed → Option Body
set_body body f = if is_positive f.result then some (body f.got) else none

-- What `recvResponse` does with the `buffered` in the buffer and a length of the body.
unfoldable pub response_body : ℕ → List ℕ → Channel → Option Body
response_body body_len buffered c =
    if leb body_len (length buffered)
    then some none
    else set_body (λ got. some (buffered ++ got)) (read_fix_size (body_len - length buffered) c)

-- The same in `recvRequest`, whose text is made by `std::string(' ', body_len)`: 32 times the character `body_len`.
abbrev pub fresh_body : ℕ → List ℕ
fresh_body body_len = replicate 32 (body_len % 256)

-- `bytes` at the front of the text; past its end it is undefined.
abbrev pub put_front : ℕ → List ℕ → List ℕ
put_front body_len bytes = bytes ++ drop (length bytes) (fresh_body body_len)

abbrev pub request_read : ℕ → List ℕ → Fixed → Outcome (Option Body)
request_read body_len buffered f =
    if ltb 32 (length buffered + length f.got)
    then throws undefined
    else ok (set_body (λ got. some (put_front body_len (buffered ++ got))) f)

unfoldable pub request_body : ℕ → List ℕ → Channel → Outcome (Option Body)
request_body body_len buffered c =
    if body_len == 0
    then ok (some none)
    else if ltb body_len (length buffered)
    then ok (some none)
    else if ltb 32 (length buffered)
    then throws undefined
    else if length buffered == body_len
    then ok (some none)
    else request_read body_len buffered (read_fix_size (body_len - length buffered) c)

module _ {Parser : Type 0} (execute : Parser → List ℕ → Parser × ℕ)
    (has_error is_finished : Parser → Bool) (get_content_length : Parser → ℕ) (buf_size : ℕ) where
  abbrev pub and_parser : Parser → Option Body → Option (Parser × Body)
  and_parser parser body = Option.map (λ b. (parser, b)) body

  abbrev pub with_response_body : Option (Head Parser) → Option (Parser × Body)
  with_response_body none = none
  with_response_body (some h) =
      and_parser h.parser (response_body (get_content_length h.parser) h.buffered h.channel)

  -- The parser with the response, and the body that is set in it.
  unfoldable pub recv_response : Parser → Channel → Option (Parser × Body)
  recv_response parser c =
      with_response_body
        (recv_head execute has_error is_finished buf_size c.sizes c.input parser [])

  abbrev pub with_request_body : Option (Head Parser) → Outcome (Option (Parser × Body))
  with_request_body none = ok none
  with_request_body (some h) = do
    body ← request_body (get_content_length h.parser) h.buffered h.channel
    ok (and_parser h.parser body)

  unfoldable pub recv_request : Parser → Channel → Outcome (Option (Parser × Body))
  recv_request parser c =
      with_request_body (recv_head execute has_error is_finished buf_size c.sizes c.input parser [])
