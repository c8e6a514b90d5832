-- ===== src/Http/Sending.antt =====
-- `HttpConnection::sendRequest` and `HttpSession::sendResponse` of East/http: the text of a message on a stream.
mod Tests
use east.Common.{ℕ, ◌^◌, ◌%◌, ◌≤◌, ◌≡◌, ap, ◌∙◌, List, length, All}
use east.Stream.{Fixed, write_fix_size}
use east.Stream.Whole.{write_fix_size_lem}
use east.Http.Messages.{HttpReq, HttpResp, dump_request, dump_response}
use east.Http.Messages.Framing.{
  read_message, request_lines, response_lines, IsLine, read-dump_request, read-dump_response,
}

-- What the peer is sent, and what `writeFixSize` returns.
unfoldable pub send_request : HttpReq → List ℕ → Fixed
send_request req sizes = write_fix_size (dump_request req) sizes

unfoldable pub send_response : HttpResp → List ℕ → Fixed
send_response rsp sizes = write_fix_size (dump_response rsp) sizes

-- A request arrives: where each write takes a byte and there are enough of them, the whole text is sent, however it is
-- broken up, the low 32 bits of its length are returned, and a reader that goes line by line to the first empty line finds the request line, the line on the
-- connection, a line for each header but the one on the connection, the length of a body that is not empty, and then
-- the body. No line of the head may be empty or have a carriage return in it.
pub read-send_request :
    (req : HttpReq) (sizes : List ℕ)
    → All IsLine (request_lines req)
    → All (λ size. 1 ≤ size) sizes
    → length (dump_request req) ≤ length sizes
    → ((send_request req sizes).result ≡ length (dump_request req) % 2 ^ 32)
      × (read_message (send_request req sizes).got ≡ (request_lines req, req.body))
unfolding send_request
read-send_request req sizes h p r =
    let (result, got) = write_fix_size_lem (dump_request req) sizes p r in
    (result, ap read_message got ∙ read-dump_request req h)

-- The same for a response, whose line on the connection stands behind its headers.
pub read-send_response :
    (rsp : HttpResp) (sizes : List ℕ)
    → All IsLine (response_lines rsp)
    → All (λ size. 1 ≤ size) sizes
    → length (dump_response rsp) ≤ length sizes
    → ((send_response rsp sizes).result ≡ length (dump_response rsp) % 2 ^ 32)
      × (read_message (send_response rsp sizes).got ≡ (response_lines rsp, rsp.resp_body))
unfolding send_response
read-send_response rsp sizes h p r =
    let (result, got) = write_fix_size_lem (dump_response rsp) sizes p r in
    (result, ap read_message got ∙ read-dump_response rsp h)
