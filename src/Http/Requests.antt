-- ===== src/Http/Requests.antt =====
-- `HttpConnection::DoRequest` of East/http/HttpConnection.cc: a request made from a method, an address and headers. The
-- parts of a `Uri` are arguments.
pub mod Hosts
mod Tests
use east.Common.{ℕ, Bool, true, false, not, ◌&&◌, List, [], ◌∷◌, if◌then◌else◌}
use east.Common.Texts.{codes}
use east.Address.{is_same}
use east.Http.{MapType, strcasecmp, assign}
use east.Http.Tables.{HttpMethod}
use east.Http.Messages.{HttpReq, new_request}

-- `strcasecmp(a, b) == 0`.
abbrev pub is_key : List ℕ → List ℕ → Bool
is_key a b = is_same (strcasecmp a b)

abbrev pub is_filled : List ℕ → Bool
is_filled [] = false
is_filled (c ∷ s) = true

-- What the loop over the headers has made so far.
pub record Building : Type 0 where
  pub headers : MapType
  pub close : Bool
  pub has_host : Bool

unfoldable pub add_header : List ℕ → List ℕ → Building → Building
add_header key val b =
    if is_key key (codes "connection") && is_key val (codes "keep-alive")
    then record b { close = false }
    else record b {
      headers = assign key val b.headers;
      has_host = if not b.has_host && is_key key (codes "host") then is_filled val else b.has_host;
    }

abbrev pub add_headers : MapType → Building → Building
add_headers [] b = b
add_headers ((key, val) ∷ m) b = add_headers m (add_header key val b)

abbrev pub with_host : List ℕ → Building → MapType
with_host host b = if b.has_host then b.headers else assign (codes "Host") host b.headers

abbrev pub built : MapType → Building
built headers = add_headers headers (record { headers = []; close = true; has_host = false })

-- The request that is handed to the second `DoRequest`.
unfoldable pub make_request :
    HttpMethod → List ℕ → List ℕ → List ℕ → List ℕ → MapType → List ℕ → HttpReq
make_request method host path query fragment headers body = record (new_request 17 true) {
  method = method;
  path = path;
  query = query;
  fragment = fragment;
  body = body;
  headers = with_host host (built headers);
  close = (built headers).close;
}
