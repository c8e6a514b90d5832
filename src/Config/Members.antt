-- ===== src/Config/Members.antt =====
-- The names that `ListAllMember` of East/src/Config.cc lists.
use east.Common.{
  ℕ, ◌≡◌, refl, ap, arith, true, false, ◌&&◌, Bool-cases, inl, inr, List, [], ◌∷◌, ◌++◌, map,
  if◌then◌else◌, leb, All,
}
use east.Common.Texts.{and_both}
use east.Http.{tolower}
use east.Config.{
  Node, scalar, mapping, other, Fields, end, field, is_allowed, all_allowed, join, list_all_member,
  list_fields,
}

abbrev pub AllAllowed : List (List ℕ × Node) → Type 0
AllAllowed = All (λ m. all_allowed m.0 ≡ true)

append-AllAllowed :
    (xs ys : List (List ℕ × Node)) → AllAllowed xs → AllAllowed ys → AllAllowed (xs ++ ys)
append-AllAllowed [] ys h h' = h'
append-AllAllowed (x ∷ xs) ys (h, hs) h' = (h, append-AllAllowed xs ys hs h')

if_allowed :
    (prefix : List ℕ) (node : Node) (inside : List (List ℕ × Node))
    → AllAllowed inside
    → AllAllowed (if all_allowed prefix then (prefix, node) ∷ inside else [])
if_allowed prefix node inside h = elim (Bool-cases (all_allowed prefix)) [
  | inl e ↦ rw (e) (e, h)
  | inr e ↦ rw (e) tt
]

mutual
  pub list_all_member-AllAllowed :
      (prefix : List ℕ) (node : Node) → AllAllowed (list_all_member prefix node)
  list_all_member-AllAllowed prefix (scalar s) = if_allowed prefix (scalar s) [] tt
  list_all_member-AllAllowed prefix (other s) = if_allowed prefix (other s) [] tt
  list_all_member-AllAllowed prefix (mapping fs) =
      if_allowed prefix (mapping fs) (list_fields prefix fs) (list_fields-AllAllowed prefix fs)

  list_fields-AllAllowed : (prefix : List ℕ) (fs : Fields) → AllAllowed (list_fields prefix fs)
  list_fields-AllAllowed prefix end = tt
  list_fields-AllAllowed prefix (field key node fs) =
      append-AllAllowed (list_all_member (join prefix key) node) (list_fields prefix fs)
        (list_all_member-AllAllowed (join prefix key) node) (list_fields-AllAllowed prefix fs)

allowed_low : (c : ℕ) → is_allowed c ≡ true → leb 65 c && leb c 90 ≡ false
allowed_low c h = ground arith

-- `tolower` leaves them as they are.
pub lower_allowed : (s : List ℕ) → all_allowed s ≡ true → map tolower s ≡ s
lower_allowed [] h = refl
lower_allowed (c ∷ s) h =
    let (e, d) = and_both (is_allowed c) (all_allowed s) h in
    rw (allowed_low c e) (ap (λ t. c ∷ t) (lower_allowed s d))
