-- ===== src/Http/Tables.antt =====
-- The names of methods and statuses in East/http/Http.h, as East/http/Http.cc makes texts of them.
pub mod RoundTrip
use Prim.Native.String.{String}
use east.Common.{
  ℕ, ◌≡◌, ◌⊎◌, inl, inr, refl, sym, ap, ◌∙◌, Bool, true, false, ◌&&◌, Bool-cases, List, [], ◌∷◌,
  if◌then◌else◌, ◌==◌,
}
use east.Common.Texts.{codes, same_text}

pub data HttpMethod : Type 0 where
  delete get head post put connect options trace copy lock mkcol move propfind proppatch search
        unlock bind rebind unbind acl report mkactivity checkout merge msearch notify subscribe
        unsubscribe patch purge mkcalendar link unlink source invalid :
      HttpMethod

-- `HttpMethodToString`. The preprocessor makes one space of the spaces in an argument.
unfoldable pub http_method_to_string : HttpMethod → List ℕ
http_method_to_string delete = codes "DELETE"
http_method_to_string get = codes "GET"
http_method_to_string head = codes "HEAD"
http_method_to_string post = codes "POST"
http_method_to_string put = codes "PUT"
http_method_to_string connect = codes "CONNECT"
http_method_to_string options = codes "OPTIONS"
http_method_to_string trace = codes "TRACE"
http_method_to_string copy = codes "COPY"
http_method_to_string lock = codes "LOCK"
http_method_to_string mkcol = codes "MKCOL"
http_method_to_string move = codes "MOVE"
http_method_to_string propfind = codes "PROPFIND"
http_method_to_string proppatch = codes "PROPPATCH"
http_method_to_string search = codes "SEARCH"
http_method_to_string unlock = codes "UNLOCK"
http_method_to_string bind = codes "BIND"
http_method_to_string rebind = codes "REBIND"
http_method_to_string unbind = codes "UNBIND"
http_method_to_string acl = codes "ACL"
http_method_to_string report = codes "REPORT"
http_method_to_string mkactivity = codes "MKACTIVITY"
http_method_to_string checkout = codes "CHECKOUT"
http_method_to_string merge = codes "MERGE"
http_method_to_string msearch = codes "M - SEARCH"
http_method_to_string notify = codes "NOTIFY"
http_method_to_string subscribe = codes "SUBSCRIBE"
http_method_to_string unsubscribe = codes "UNSUBSCRIBE"
http_method_to_string patch = codes "PATCH"
http_method_to_string purge = codes "PURGE"
http_method_to_string mkcalendar = codes "MKCALENDAR"
http_method_to_string link = codes "LINK"
http_method_to_string unlink = codes "UNLINK"
http_method_to_string source = codes "SOURCE"
http_method_to_string invalid = codes "<unknown>"

abbrev pub methods : List HttpMethod
methods =
    delete ∷ get ∷ head ∷ post ∷ put ∷ connect ∷ options ∷ trace ∷ copy ∷ lock ∷ mkcol ∷ move
    ∷ propfind ∷ proppatch ∷ search ∷ unlock ∷ bind ∷ rebind ∷ unbind ∷ acl ∷ report ∷ mkactivity
    ∷ checkout ∷ merge ∷ msearch ∷ notify ∷ subscribe ∷ unsubscribe ∷ patch ∷ purge ∷ mkcalendar
    ∷ link ∷ unlink ∷ source ∷ []

-- A search of `s_str_method`.
unfoldable pub find_method : List ℕ → List HttpMethod → HttpMethod
find_method s [] = invalid
find_method s (m ∷ ms) =
    let rest = find_method s ms in if same_text (http_method_to_string m) s then m else rest

-- `StringToHttpMethod`.
unfoldable pub string_to_http_method : List ℕ → HttpMethod
string_to_http_method s = find_method s methods

abbrev pub statuses : List (ℕ × List ℕ)
statuses =
    (100, codes "Continue")
    ∷ (101, codes "Switching Protocols")
    ∷ (102, codes "Processing")
    ∷ (200, codes "OK")
    ∷ (201, codes "Created")
    ∷ (202, codes "Accepted")
    ∷ (203, codes "Non - Authoritative Information")
    ∷ (204, codes "No Content")
    ∷ (205, codes "Reset Content")
    ∷ (206, codes "Partial Content")
    ∷ (207, codes "Multi - Status")
    ∷ (208, codes "Already Reported")
    ∷ (226, codes "IM Used")
    ∷ (300, codes "Multiple Choices")
    ∷ (301, codes "Moved Permanently")
    ∷ (302, codes "Found")
    ∷ (303, codes "See Other")
    ∷ (304, codes "Not Modified")
    ∷ (305, codes "Use Proxy")
    ∷ (307, codes "Temporary Redirect")
    ∷ (308, codes "Permanent Redirect")
    ∷ (400, codes "Bad Request")
    ∷ (401, codes "Unauthorized")
    ∷ (402, codes "Payment Required")
    ∷ (403, codes "Forbidden")
    ∷ (404, codes "Not Found")
    ∷ (405, codes "Method Not Allowed")
    ∷ (406, codes "Not Acceptable")
    ∷ (407, codes "Proxy Authentication Required")
    ∷ (408, codes "Request Timeout")
    ∷ (409, codes "Conflict")
    ∷ (410, codes "Gone")
    ∷ (411, codes "Length Required")
    ∷ (412, codes "Precondition Failed")
    ∷ (413, codes "Payload Too Large")
    ∷ (414, codes "URI Too Long")
    ∷ (415, codes "Unsupported Media Type")
    ∷ (416, codes "Range Not Satisfiable")
    ∷ (417, codes "Expectation Failed")
    ∷ (421, codes "Misdirected Request")
    ∷ (422, codes "Unprocessable Entity")
    ∷ (423, codes "Locked")
    ∷ (424, codes "Failed Dependency")
    ∷ (426, codes "Upgrade Required")
    ∷ (428, codes "Precondition Required")
    ∷ (429, codes "Too Many Requests")
    ∷ (431, codes "Request Header Fields Too Large")
    ∷ (451, codes "Unavailable For Legal Reasons")
    ∷ (500, codes "Internal Server Error")
    ∷ (501, codes "Not Implemented")
    ∷ (502, codes "Bad Gateway")
    ∷ (503, codes "Service Unavailable")
    ∷ (504, codes "Gateway Timeout")
    ∷ (505, codes "HTTP Version Not Supported")
    ∷ (506, codes "Variant Also Negotiates")
    ∷ (507, codes "Insufficient Storage")
    ∷ (508, codes "Loop Detected")
    ∷ (510, codes "Not Extended")
    ∷ (511, codes "Network Authentication Required")
    ∷ []

abbrev pub find_status : ℕ → List (ℕ × List ℕ) → List ℕ
find_status s [] = codes "<unknown>"
find_status s ((code, desc) ∷ rest) =
    let later = find_status s rest in if s == code then desc else later

-- `HttpStatusToString`.
unfoldable pub http_status_to_string : ℕ → List ℕ
http_status_to_string s = find_status s statuses
