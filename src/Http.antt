-- ===== src/Http.antt =====
-- East/http/Http.cc and East/http/Http.h: the maps of a message, whose keys differ in more than the case of their
-- letters. A text is the list of its codes.
pub mod Maps
pub mod Tables
pub mod Messages
pub mod Receiving
pub mod Requests
pub mod Sending
mod Tests
use east.Common.{
  ℕ, zero, suc, ◌+◌, Bool, true, false, ◌&&◌, Option, none, some, List, [], ◌∷◌, map, if◌then◌else◌,
  ltb, leb,
}
use east.Address.{Comparison, below, same, above}
use east.Address.Host.{c_string}

-- `tolower` of the "C" locale.
abbrev pub tolower : ℕ → ℕ
tolower c = if leb 65 c && leb c 90 then c + 32 else c

abbrev pub compare_texts : List ℕ → List ℕ → Comparison
compare_texts [] [] = same
compare_texts [] (y ∷ ys) = below
compare_texts (x ∷ xs) [] = above
compare_texts (x ∷ xs) (y ∷ ys) =
    let rest = compare_texts xs ys in if ltb x y then below else if ltb y x then above else rest

-- What `strcasecmp` sees of a text.
unfoldable pub fold_case : List ℕ → List ℕ
fold_case s = map tolower (c_string s)

abbrev pub strcasecmp : List ℕ → List ℕ → Comparison
strcasecmp lhs rhs = compare_texts (fold_case lhs) (fold_case rhs)

abbrev pub is_below : Comparison → Bool
is_below below = true
is_below _ = false

-- `CaseInsensitiveLess`.
unfoldable pub case_insensitive_less : List ℕ → List ℕ → Bool
case_insensitive_less lhs rhs = is_below (strcasecmp lhs rhs)

-- A `std::map` in the order of its keys.
abbrev pub MapType : Type 0
MapType = List (List ℕ × List ℕ)

-- `find`, the assignment through `[]`, which keeps the key that is there, and `erase`.
unfoldable pub find : List ℕ → MapType → Option (List ℕ)
find key [] = none
find key ((k, v) ∷ m) =
    let rest = find key m in
    if case_insensitive_less k key
    then rest
    else if case_insensitive_less key k
    then none
    else some v

unfoldable pub assign : List ℕ → List ℕ → MapType → MapType
assign key val [] = (key, val) ∷ []
assign key val ((k, v) ∷ m) =
    let rest = assign key val m in
    if case_insensitive_less k key
    then (k, v) ∷ rest
    else if case_insensitive_less key k
    then (key, val) ∷ (k, v) ∷ m
    else (k, val) ∷ m

unfoldable pub erase : List ℕ → MapType → MapType
erase key [] = []
erase key ((k, v) ∷ m) =
    let rest = erase key m in
    if case_insensitive_less k key
    then (k, v) ∷ rest
    else if case_insensitive_less key k
    then (k, v) ∷ m
    else m

-- `getHeader`, `getParam` and `getCookie`.
abbrev pub value_or : List ℕ → Option (List ℕ) → List ℕ
value_or def none = def
value_or def (some v) = v

unfoldable pub get_value : List ℕ → List ℕ → MapType → List ℕ
get_value key def m = value_or def (find key m)

-- `hasHeader`, `hasParam` and `hasCookie`, with what `val` points to, and none for null.
abbrev pub has_found : Option (List ℕ) → Option (List ℕ) → Bool × Option (List ℕ)
has_found val none = (false, val)
has_found none (some v) = (true, none)
has_found (some old) (some v) = (true, some v)

unfoldable pub has_value : List ℕ → Option (List ℕ) → MapType → Bool × Option (List ℕ)
has_value key val m = has_found val (find key m)

-- `checkGetAs` and `getAs`; `lexical_cast` is the library's, and gives nothing where it throws.
module _ {A : Type 0} (lexical_cast : List ℕ → Option A) where
  abbrev pub cast_or : A → Option A → A × Bool
  cast_or def none = (def, false)
  cast_or def (some a) = (a, true)

  abbrev pub check_found : A → Option (List ℕ) → A × Bool
  check_found def none = (def, false)
  check_found def (some v) = cast_or def (lexical_cast v)

  unfoldable pub check_get_as : List ℕ → A → MapType → A × Bool
  check_get_as key def m = check_found def (find key m)

  unfoldable pub get_as : List ℕ → A → MapType → A
  get_as key def m = (check_found def (find key m)).0
