-- ===== src/Address/Host/Forms.antt =====
-- The forms of a host that `Lookup` in East/src/Address.cc is written for, and what becomes of each.
use east.Common.{
  ℕ, zero, suc, ◌<◌, ◌≡◌, refl, ap, ◌∙◌, arith, true, false, Option, none, some, List, [], ◌∷◌,
  ◌++◌, ok, ◌==◌, length, take, drop, All, length-append,
}
use east.Address.Host.{
  colon, open_bracket, close_bracket, memchr, c_string, port_after, bracketed, to_colon,
  node_or_host, with_port, split_host,
}

abbrev pub Lacks : ℕ → List ℕ → Type 0
Lacks c xs = All (λ x. (x == c) ≡ false) xs

-- "name", "name:80", "[::1]" and "[::1]:80".
pub data Form : Type 0 where
  bare : ℕ → List ℕ → Form
  bare_port : ℕ → List ℕ → ℕ → List ℕ → Form
  literal : ℕ → List ℕ → Form
  literal_port : ℕ → List ℕ → List ℕ → Form

abbrev pub print : Form → List ℕ
print (bare c name) = c ∷ name
print (bare_port c name d port) = (c ∷ name) ++ colon ∷ d ∷ port
print (literal c v6) = open_bracket ∷ (c ∷ v6) ++ close_bracket ∷ []
print (literal_port c v6 port) = open_bracket ∷ (c ∷ v6) ++ close_bracket ∷ colon ∷ port

abbrev pub node : Form → List ℕ
node (bare c name) = c ∷ name
node (bare_port c name d port) = c ∷ name
node (literal c v6) = c ∷ v6
node (literal_port c v6 port) = c ∷ v6

abbrev pub service : Form → Option (List ℕ)
service (bare c name) = none
service (bare_port c name d port) = some (d ∷ port)
service (literal c v6) = none
service (literal_port c v6 port) = some port

abbrev pub IsForm : Form → Type 0
IsForm (bare c name) = ((c == open_bracket) ≡ false) × Lacks colon (c ∷ name)
IsForm (bare_port c name d port) =
    ((c == open_bracket) ≡ false)
    × Lacks colon (c ∷ name)
    × Lacks colon (d ∷ port)
    × Lacks 0 (d ∷ port)
IsForm (literal c v6) = Lacks close_bracket (c ∷ v6)
IsForm (literal_port c v6 port) = Lacks close_bracket (c ∷ v6) × Lacks 0 port

memchr-none : (c n : ℕ) (xs : List ℕ) → Lacks c xs → memchr c n xs ≡ none
memchr-none c zero xs h = refl
memchr-none c (suc n) [] h = refl
memchr-none c (suc n) (x ∷ xs) (e, h) = rw (e, memchr-none c n xs h) refl

memchr-some :
    (c n : ℕ) (xs ys : List ℕ)
    → length xs < n
    → Lacks c xs
    → (c == c) ≡ true
    → memchr c n (xs ++ c ∷ ys) ≡ some (length xs)
memchr-some c zero xs ys b h e = absurd (omega arith)
memchr-some c (suc n) [] ys b h e = rw (e) refl
memchr-some c (suc n) (x ∷ xs) ys b (d, h) e = rw (d, memchr-some c n xs ys (omega arith) h e) refl

c_string_lem : (xs : List ℕ) → Lacks 0 xs → c_string xs ≡ xs
c_string_lem [] h = refl
c_string_lem (x ∷ xs) (e, h) = rw (e, c_string_lem xs h) refl

take_front : (xs ys : List ℕ) → take (length xs) (xs ++ ys) ≡ xs
take_front [] ys = refl
take_front (x ∷ xs) ys = ap (λ r. x ∷ r) (take_front xs ys)

drop_front : (y : ℕ) (xs ys : List ℕ) → drop (suc (length xs)) (xs ++ y ∷ ys) ≡ ys
drop_front y [] ys = refl
drop_front y (x ∷ xs) ys = drop_front y xs ys

-- The search for a port behind a name.
named_port :
    (xs port : List ℕ) (n : ℕ)
    → length xs < n
    → Lacks colon xs
    → Lacks colon port
    → Lacks 0 port
    → to_colon (xs ++ colon ∷ port) (memchr colon n (xs ++ colon ∷ port)) ≡ (xs, some port)
named_port xs port n b h h' z =
    rw
      (
        memchr-some colon n xs port b h refl,
        drop_front colon xs port,
        memchr-none colon (length port) port h',
        take_front xs (colon ∷ port),
        drop_front colon xs port,
        c_string_lem port z,
      )
      refl

bracket_port :
    (xs rest : List ℕ)
    → Lacks close_bracket xs
    → bracketed (open_bracket ∷ xs ++ close_bracket ∷ rest) ≡ (xs, port_after rest)
bracket_port xs rest h =
    rw
      (
        memchr-some close_bracket (length (xs ++ close_bracket ∷ rest)) xs rest
            (omega (arith, length-append xs (close_bracket ∷ rest))) h refl,
        drop_front close_bracket xs rest,
        take_front xs (close_bracket ∷ rest),
      )
      refl

-- Each of the four forms is taken apart as it is written: the name, or what stands between the brackets, is the node,
-- and what stands behind the colon, if any, is the service.
pub split_form : (f : Form) → IsForm f → split_host (print f) ≡ ok (node f, service f)
unfolding split_host
split_form (bare c name) (e, h) = rw (e, memchr-none colon (length name) (c ∷ name) h) refl
split_form (bare_port c name d port) (e, h, h', z) = rw (e) (
    ap (λ t. ok (node_or_host ((c ∷ name) ++ colon ∷ d ∷ port) t))
      (named_port (c ∷ name) (d ∷ port) (length (name ++ colon ∷ d ∷ port))
        (omega (arith, length-append name (colon ∷ d ∷ port))) h h' z))
split_form (literal c v6) h = ap (with_port (print (literal c v6))) (bracket_port (c ∷ v6) [] h)
split_form (literal_port c v6 port) (h, z) =
    ap (with_port (print (literal_port c v6 port))) (bracket_port (c ∷ v6) (colon ∷ port) h)
    ∙ ap (λ t. ok (c ∷ v6, some t)) (c_string_lem port z)

drop_at : (xs ys : List ℕ) → drop (length xs) (xs ++ ys) ≡ ys
drop_at [] ys = refl
drop_at (x ∷ xs) ys = drop_at xs ys

-- The search for a port where a second colon follows.
two_colons :
    (xs ys zs : List ℕ) (n : ℕ)
    → length xs < n
    → Lacks colon xs
    → Lacks colon ys
    → to_colon
        (xs ++ colon ∷ (ys ++ colon ∷ zs))
        (memchr colon n (xs ++ colon ∷ (ys ++ colon ∷ zs)))
      ≡ ([], some (c_string (colon ∷ (ys ++ colon ∷ zs))))
two_colons xs ys zs n b h h' =
    rw
      (
        memchr-some colon n xs (ys ++ colon ∷ zs) b h refl,
        drop_front colon xs (ys ++ colon ∷ zs),
        memchr-some colon (length (ys ++ colon ∷ zs)) ys zs
            (omega (arith, length-append ys (colon ∷ zs))) h' refl,
        drop_at xs (colon ∷ (ys ++ colon ∷ zs)),
      )
      refl

-- A text with two colons or more and no bracket in front, as an IPv6 address is written, is the node as it should
-- be, but its rest from the first colon on is handed over as the service.
pub bare_ipv6 :
    (xs ys zs : List ℕ)
    → Lacks open_bracket xs
    → Lacks colon xs
    → Lacks colon ys
    → split_host (xs ++ colon ∷ (ys ++ colon ∷ zs))
      ≡ ok (xs ++ colon ∷ (ys ++ colon ∷ zs), some (c_string (colon ∷ (ys ++ colon ∷ zs))))
unfolding split_host
bare_ipv6 [] ys zs o h h' =
    ap (λ t. ok (node_or_host (colon ∷ (ys ++ colon ∷ zs)) t))
      (two_colons [] ys zs (length (ys ++ colon ∷ zs))
        (omega (arith, length-append ys (colon ∷ zs))) h h')
bare_ipv6 (x ∷ xs) ys zs (e, o) h h' = rw (e) (
    ap (λ t. ok (node_or_host (x ∷ xs ++ colon ∷ (ys ++ colon ∷ zs)) t))
      (two_colons (x ∷ xs) ys zs (length (xs ++ colon ∷ (ys ++ colon ∷ zs)))
        (omega
          (arith, length-append xs (colon ∷ (ys ++ colon ∷ zs)), length-append ys (colon ∷ zs)))
        h h'))
