-- ===== src/Http/Messages.antt =====
-- The messages of East/http/Http.cc, and the text that `dump` writes.
pub mod Framing
use east.Common.{
  ℕ, zero, suc, ◌+◌, ◌/◌, ◌%◌, Bool, true, false, List, [], ◌∷◌, ◌++◌, if◌then◌else◌, ltb, length,
}
use east.Common.Texts.{codes}
use east.Address.{Comparison, below, same, above, is_same}
use east.Http.{MapType, assign, erase, strcasecmp}
use east.Http.Tables.{HttpMethod, get, http_method_to_string, http_status_to_string}

pub record HttpReq : Type 0 where
  pub method : HttpMethod
  pub status : ℕ
  pub version : ℕ
  pub close : Bool
  pub path : List ℕ
  pub query : List ℕ
  pub fragment : List ℕ
  pub body : List ℕ
  pub headers : MapType
  pub params : MapType
  pub cookie : MapType

-- `HttpReq::HttpReq`; the status is that behind the last one of the list.
abbrev pub new_request : ℕ → Bool → HttpReq
new_request version close = record {
  method = get;
  status = 512;
  version = version;
  close = close;
  path = codes "/";
  query = [];
  fragment = [];
  body = [];
  headers = [];
  params = [];
  cookie = [];
}

abbrev pub set_header : List ℕ → List ℕ → HttpReq → HttpReq
set_header key val r = record r { headers = assign key val r.headers }

abbrev pub set_param : List ℕ → List ℕ → HttpReq → HttpReq
set_param key val r = record r { params = assign key val r.params }

-- `setBody` of a key and a value, which sets a cookie.
abbrev pub set_body : List ℕ → List ℕ → HttpReq → HttpReq
set_body key val r = record r { cookie = assign key val r.cookie }

abbrev pub del_header : List ℕ → HttpReq → HttpReq
del_header key r = record r { headers = erase key r.headers }

abbrev pub del_param : List ℕ → HttpReq → HttpReq
del_param key r = record r { params = erase key r.params }

abbrev pub del_cookie : List ℕ → HttpReq → HttpReq
del_cookie key r = record r { cookie = erase key r.cookie }

-- `os << n`, with a bound on the digits.
abbrev pub digits : ℕ → ℕ → List ℕ
digits zero n = []
digits (suc rounds) n =
    let higher = digits rounds (n / 10) in
    if ltb n 10 then (48 + n) ∷ [] else higher ++ (48 + n % 10) ∷ []

abbrev pub decimal : ℕ → List ℕ
decimal n = digits (suc n) n

abbrev pub crlf : List ℕ
crlf = 13 ∷ 10 ∷ []

abbrev pub unless_empty : List ℕ → List ℕ → List ℕ
unless_empty [] mark = []
unless_empty (c ∷ s) mark = mark

abbrev pub version_text : ℕ → List ℕ
version_text version = decimal (version / 16) ++ (codes "." ++ decimal (version % 16))

abbrev pub close_text : Bool → List ℕ
close_text close = codes "connnection: " ++ (if close then codes "close" else codes "keep-alive")

abbrev pub header_texts : MapType → List ℕ
header_texts [] = []
header_texts ((key, val) ∷ m) =
    let rest = header_texts m in
    if is_same (strcasecmp key (codes "connection"))
    then rest
    else key ++ (codes ":" ++ (val ++ (crlf ++ rest)))

abbrev pub body_text : List ℕ → List ℕ
body_text [] = crlf
body_text (c ∷ body) =
    codes "content-length: " ++ (decimal (length (c ∷ body)) ++ (crlf ++ (crlf ++ c ∷ body)))

-- The first line of a request. A fragment gives its mark only.
abbrev pub request_line : HttpReq → List ℕ
request_line r =
    http_method_to_string r.method
    ++ (codes " "
        ++ (r.path
            ++ (unless_empty r.query (codes "?")
                ++ (r.query
                    ++ (unless_empty r.fragment (codes "#")
                        ++ (codes " HTTP/" ++ version_text r.version))))))

unfoldable pub dump_request : HttpReq → List ℕ
dump_request r =
    request_line r
    ++ (crlf ++ (close_text r.close ++ (crlf ++ (header_texts r.headers ++ body_text r.body))))

pub record HttpResp : Type 0 where
  pub resp_status : ℕ
  pub resp_version : ℕ
  pub resp_close : Bool
  pub resp_body : List ℕ
  pub reason : List ℕ
  pub resp_headers : MapType

abbrev pub reason_text : ℕ → List ℕ → List ℕ
reason_text status [] = http_status_to_string status
reason_text status (c ∷ reason) = c ∷ reason

abbrev pub status_line : HttpResp → List ℕ
status_line r =
    codes "HTTP/"
    ++ (version_text r.resp_version
        ++ (codes " "
            ++ (decimal r.resp_status ++ (codes " " ++ reason_text r.resp_status r.reason))))

unfoldable pub dump_response : HttpResp → List ℕ
dump_response r =
    status_line r
    ++ (crlf
        ++ (header_texts r.resp_headers
            ++ (close_text r.resp_close ++ (crlf ++ body_text r.resp_body))))
