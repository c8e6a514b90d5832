-- ===== src/Http/Requests/Hosts.antt =====
-- The host of a request that `DoRequest` of East/http/HttpConnection.cc makes.
use east.Common.{
  ℕ, ◌≡◌, refl, sym, ap, ◌∙◌, inl, inr, Bool, true, false, not, ◌&&◌, Bool-cases, Option, none,
  some, List, [], ◌∷◌, if◌then◌else◌, ltb, All, ltb→lt,
}
use east.Common.Texts.{codes}
use east.Address.{equal, is_same}
use east.Address.Order.{
  equal_cons, equal_short, equal_long, lt→eq-false, gt→eq-false, eq_same, ltb_same,
}
use east.Http.{MapType, compare_texts, fold_case, find}
use east.Http.Maps.{
  same_key, before, level, after, order, Above, IsSorted, Above-trans, find-Above, lt_not_same,
  lt-fold_left,
}
use east.Http.Maps.Edits.{find-assign, find_empty, find-before, find-level, find-after}
use east.Http.Tables.{HttpMethod}
use east.Http.Requests.{
  is_key, is_filled, Building, add_header, add_headers, with_host, make_request,
}

same_equal : (xs ys : List ℕ) → is_same (compare_texts xs ys) ≡ equal xs ys
unfolding equal
same_equal [] [] = refl
same_equal [] (y ∷ ys) = sym (equal_short y ys)
same_equal (x ∷ xs) [] = sym (equal_long x xs)
same_equal (x ∷ xs) (y ∷ ys) = rw (equal_cons x y xs ys) (elim (Bool-cases (ltb x y)) [
  | inl e ↦ rw (e, lt→eq-false x y (ltb→lt x y e)) refl
  | inr e ↦ rw (e) (elim (Bool-cases (ltb y x)) [
    | inl d ↦ rw (d, gt→eq-false x y (ltb→lt y x d)) refl
    | inr d ↦ rw (d, eq_same x y (ltb_same x y e d)) (same_equal xs ys)
  ])
])

is_key_lem : (a b : List ℕ) → is_key a b ≡ same_key a b
is_key_lem a b = same_equal (fold_case a) (fold_case b)

abbrev host_key : List ℕ
host_key = codes "host"

same_key_self : same_key host_key host_key ≡ true
unfolding fold_case equal
same_key_self = refl

no_connection : is_key host_key (codes "connection") ≡ false
unfolding fold_case
no_connection = refl

to_host_name : same_key host_key (codes "Host") ≡ true
unfolding fold_case equal
to_host_name = refl

kept_flag : (flag filled : Bool) → (if not flag && false then filled else flag) ≡ flag
kept_flag true filled = refl
kept_flag false filled = refl

-- A key is another one than the host's, or it is the host's to the map and to the loop.
differs : (k : List ℕ) → same_key host_key k ≡ false → is_key k host_key ≡ false
differs k h = is_key_lem k host_key ∙ elim (order k host_key) [
  | before l g s ↦ s
  | level l g s e ↦ absurd (cc (h, ap (λ f. equal (fold_case host_key) f) e, same_key_self))
  | after l g s ↦ s
]

-- A header under another key leaves the host alone.
other_header :
    (key val : List ℕ) (b : Building)
    → same_key host_key key ≡ false
    → (find host_key (add_header key val b).headers ≡ find host_key b.headers)
      × ((add_header key val b).has_host ≡ b.has_host)
unfolding add_header
other_header key val b h =
    elim (Bool-cases (is_key key (codes "connection") && is_key val (codes "keep-alive"))) [
      | inl e ↦ rw (e) (refl, refl)
      | inr e ↦
          rw (e, differs key h)
            (
              find-assign host_key key val b.headers ∙ rw (h) refl,
              kept_flag b.has_host (is_filled val),
            )
    ]

abbrev Others : MapType → Type 0
Others = All (λ e. same_key host_key e.0 ≡ false)

other_headers :
    (m : MapType) (b : Building)
    → Others m
    → (find host_key (add_headers m b).headers ≡ find host_key b.headers)
      × ((add_headers m b).has_host ≡ b.has_host)
other_headers [] b h = (refl, refl)
other_headers ((key, val) ∷ m) b (h, hs) =
    let (same, flag) = other_header key val b h in
    let (sames, flags) = other_headers m (add_header key val b) hs in (sames ∙ same, flags ∙ flag)

Above-Others : (k : List ℕ) (m : MapType) → fold_case host_key ≡ fold_case k → Above k m → Others m
Above-Others k [] e all = tt
Above-Others k ((key, val) ∷ m) e (g, all) =
    (lt_not_same host_key key (lt-fold_left host_key k key e ∙ g), Above-Others k m e all)

-- The host's own header, where none was seen yet.
host_header :
    (key val : List ℕ) (b : Building)
    → fold_case host_key ≡ fold_case key
    → same_key host_key key ≡ true
    → b.has_host ≡ false
    → (find host_key (add_header key val b).headers ≡ some val)
      × ((add_header key val b).has_host ≡ is_filled val)
unfolding add_header
host_header key val b e s h =
    rw (to_connection, to_host, h) (find-assign host_key key val b.headers ∙ rw (s) refl, refl)
  where
    to_connection : is_key key (codes "connection") ≡ false
    to_connection =
        ap (λ f. is_same (compare_texts f (fold_case (codes "connection")))) (sym e) ∙ no_connection

    to_host : is_key key host_key ≡ true
    to_host =
        is_key_lem key host_key ∙ ap (λ f. equal f (fold_case host_key)) (sym e) ∙ same_key_self

-- The host that was given, if it is not empty, and else that of the address.
abbrev pub host_or : List ℕ → Option (List ℕ) → List ℕ
host_or host none = host
host_or host (some []) = host
host_or host (some (c ∷ given)) = c ∷ given

host_added :
    (host : List ℕ) (b : Building)
    → b.has_host ≡ false
    → find host_key (with_host host b) ≡ some host
host_added host b h =
    rw (h) (find-assign host_key (codes "Host") host b.headers ∙ rw (to_host_name) refl)

host_settled :
    (host val : List ℕ) (b : Building)
    → find host_key b.headers ≡ some val
    → b.has_host ≡ is_filled val
    → find host_key (with_host host b) ≡ some (host_or host (some val))
host_settled host [] b e h = host_added host b h
host_settled host (c ∷ val) b e h = rw (h) e

host_of :
    (host : List ℕ) (m : MapType) (b : Building)
    → IsSorted m
    → b.has_host ≡ false
    → find host_key (with_host host (add_headers m b)) ≡ some (host_or host (find host_key m))
host_of host [] b s h =
    host_added host b h ∙ ap (λ o. some (host_or host o)) (sym (find_empty host_key))
host_of host ((key, val) ∷ m) b (all, s) h = elim (order host_key key) [
  | before l g n ↦
      host_of host m (add_header key val b) s ((other_header key val b n).1 ∙ h)
      ∙ ap (λ o. some (host_or host o))
          (find-Above host_key m (Above-trans host_key key m l all)
            ∙ sym (find-before host_key key val m l g))
  | level l g n e ↦
      let (value, flag) = host_header key val b e n h in
      let (same, kept) = other_headers m (add_header key val b) (Above-Others key m e all) in
      host_settled host val (add_headers m (add_header key val b)) (same ∙ value) (kept ∙ flag)
      ∙ ap (λ o. some (host_or host o)) (sym (find-level host_key key val m l g))
  | after l g n ↦
      host_of host m (add_header key val b) s ((other_header key val b n).1 ∙ h)
      ∙ ap (λ o. some (host_or host o)) (sym (find-after host_key key val m g))
]

-- A request that is made from headers with no key twice has a header on the host, in whatever case it was written: the
-- given one where it is not empty, and else the host of the address.
pub find-make_request :
    (method : HttpMethod) (host path query fragment : List ℕ) (headers : MapType) (body : List ℕ)
    → IsSorted headers
    → find (codes "host") (make_request method host path query fragment headers body).headers
      ≡ some (host_or host (find (codes "host") headers))
unfolding make_request
find-make_request method host path query fragment headers body s =
    host_of host headers (record { headers = []; close = true; has_host = false }) s refl
