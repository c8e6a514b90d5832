-- ===== src/Address/Host.antt =====
-- `Create`, `Lookup`, `LookupAny` and `LookupAnyIPAddress` of East/src/Address.cc: how a text such as
-- "name:80" or "[::1]:80" is taken apart. A text is the list of its codes.
pub mod Forms
use mathlib.Core.Option
use east.Common.{
  ℕ, zero, suc, ◌-◌, Bool, true, false, Option, none, some, List, [], ◌∷◌, ◌++◌, map, Outcome, ok,
  throws, undefined, ◌>>=◌, if◌then◌else◌, ◌==◌, length, take, drop,
}

abbrev pub colon : ℕ
colon = 58

abbrev pub open_bracket : ℕ
open_bracket = 91

abbrev pub close_bracket : ℕ
close_bracket = 93

-- What `memchr` finds in `n` bytes.
abbrev pub memchr : ℕ → ℕ → List ℕ → Option ℕ
memchr c zero xs = none
memchr c (suc n) [] = none
memchr c (suc n) (x ∷ xs) =
    let rest = Option.map suc (memchr c n xs) in if x == c then some 0 else rest

-- The text at a `const char*`: up to the first NUL.
abbrev pub c_string : List ℕ → List ℕ
c_string [] = []
c_string (x ∷ xs) = let rest = x ∷ c_string xs in if x == 0 then [] else rest

-- `node` and `service`, which is null or points into the text.
abbrev pub Target : Type 0
Target = List ℕ × Option (List ℕ)

abbrev pub port_after : List ℕ → Option (List ℕ)
port_after [] = none
port_after (c ∷ rest) = if c == colon then some (c_string rest) else none

abbrev pub to_bracket : List ℕ → Option ℕ → Target
to_bracket rest none = ([], none)
to_bracket rest (some e) = (take e rest, port_after (drop (suc e) rest))

-- "[...]:80".
abbrev pub bracketed : List ℕ → Target
bracketed [] = ([], none)
bracketed (c ∷ rest) =
    if c == open_bracket
    then to_bracket rest (memchr close_bracket (length rest) rest)
    else ([], none)

abbrev pub to_port : List ℕ → ℕ → Option ℕ → Target
to_port host i none = (take i host, some (c_string (drop (suc i) host)))
to_port host i (some j) = ([], some (c_string (drop i host)))

abbrev pub to_colon : List ℕ → Option ℕ → Target
to_colon host none = ([], none)
to_colon host (some i) =
    to_port host i (memchr colon (length (drop (suc i) host)) (drop (suc i) host))

abbrev pub node_or_host : List ℕ → Target → Target
node_or_host host ([], service) = (host, service)
node_or_host host (c ∷ node, service) = (c ∷ node, service)

-- The second search; `host.size() - 1` of an empty text is the greatest number.
abbrev pub with_port : List ℕ → Target → Outcome Target
with_port host (c ∷ node, service) = ok (c ∷ node, service)
with_port [] ([], service) = throws undefined
with_port (c ∷ host) ([], service) =
    ok (node_or_host (c ∷ host) (to_colon (c ∷ host) (memchr colon (length host) (c ∷ host))))

-- What `Lookup` hands to `getaddrinfo`.
unfoldable pub split_host : List ℕ → Outcome Target
split_host host = with_port host (bracketed host)

-- The class that `Create` chooses.
pub data Address (Sockaddr : Type 0) : Type 0 where
  ipv4 ipv6 unknown : Sockaddr → Address Sockaddr

-- `getaddrinfo` is the system's, and so is what a `sockaddr` holds.
module _ {Sockaddr : Type 0} (sa_family : Sockaddr → ℕ) (af_inet af_inet6 : ℕ)
    (getaddrinfo : List ℕ → Option (List ℕ) → Option (List Sockaddr)) where
  unfoldable pub create : Sockaddr → Address Sockaddr
  create addr =
      if sa_family addr == af_inet
      then ipv4 addr
      else if sa_family addr == af_inet6
      then ipv6 addr
      else unknown addr

  abbrev pub found : Option (List Sockaddr) → List (Address Sockaddr)
  found none = []
  found (some results) = map create results

  -- The addresses that `Lookup` adds to its result. It returns whether there are any.
  unfoldable pub lookup : List ℕ → Outcome (List (Address Sockaddr))
  lookup host = do
    (node, service) ← split_host host
    ok (found (getaddrinfo (c_string node) service))

  abbrev pub first : List (Address Sockaddr) → Option (Address Sockaddr)
  first [] = none
  first (a ∷ result) = some a

  abbrev pub first_ip : List (Address Sockaddr) → Option (Address Sockaddr)
  first_ip [] = none
  first_ip (ipv4 a ∷ result) = some (ipv4 a)
  first_ip (ipv6 a ∷ result) = some (ipv6 a)
  first_ip (unknown a ∷ result) = first_ip result

  unfoldable pub lookup_any : List ℕ → Outcome (Option (Address Sockaddr))
  lookup_any host = do result ← lookup host; ok (first result)

  unfoldable pub lookup_any_ip_address : List ℕ → Outcome (Option (Address Sockaddr))
  lookup_any_ip_address host = do result ← lookup host; ok (first_ip result)
