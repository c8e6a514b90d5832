-- ===== src/Http/Sending/Tests.antt =====
-- Messages sent on concrete inputs.
use east.Common.{
  ℕ, zero, suc, ◌^◌, ◌%◌, length, ◌≤◌, ◌≡◌, refl, arith, true, false, List, [], ◌∷◌, replicate, All,
}
use east.Common.Texts.{codes}
use east.Stream.{write_fix_size}
use east.Http.{fold_case}
use east.Http.Tables.{http_method_to_string, http_status_to_string}
use east.Http.Messages.{HttpReq, HttpResp, new_request, dump_request, dump_response}
use east.Http.Messages.Framing.{read_message}
use east.Http.Sending.{send_request, send_response, read-send_request}

-- A post of two bytes, with one header.
abbrev request : HttpReq
request = record (new_request 17 false) {
  path = codes "/a";
  query = codes "q=1";
  body = codes "hi";
  headers = (codes "Host", codes "b") ∷ (codes "Connection", codes "close") ∷ [];
}

-- Writes that take nine bytes each.
abbrev nines : List ℕ
nines = replicate 99 9

nines_positive : (n : ℕ) → All (λ size. 1 ≤ size) (replicate n 9)
nines_positive zero = tt
nines_positive (suc n) = (omega arith, nines_positive n)

read-send_request_example :
    ((send_request request nines).result ≡ length (dump_request request) % 2 ^ 32)
    × (read_message (send_request request nines).got ≡ (
      codes "GET /a?q=1 HTTP/1.1"
          ∷ codes "connnection: keep-alive"
          ∷ codes "Host:b"
          ∷ codes "content-length: 2"
          ∷ [],
      codes "hi",
    ))
unfolding fold_case http_method_to_string dump_request
read-send_request_example =
    read-send_request request nines (refl, (refl, (refl, (refl, tt)))) (nines_positive 99)
      (omega arith)

abbrev response : HttpResp
response = record {
  resp_status = 207;
  resp_version = 17;
  resp_close = true;
  resp_body = [];
  reason = [];
  resp_headers = [];
}

response_run :
    read_message (send_response response nines).got
    ≡ (codes "HTTP/1.1 207 Multi - Status" ∷ codes "connnection: close" ∷ [], [])
unfolding http_status_to_string dump_response send_response write_fix_size
response_run = refl
