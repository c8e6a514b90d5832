-- ===== src/Config/Paths.antt =====
-- Which nodes of a file `ListAllMember` of East/src/Config.cc finds under a name.
use east.Common.{
  ℕ, ◌≡◌, refl, sym, ap, ◌∙◌, inl, inr, true, false, Bool-cases, List, [], ◌∷◌, ◌++◌, if◌then◌else◌,
}
use east.Common.Texts.{same_text, same_text_sound}
use east.Config.{
  Node, scalar, mapping, other, Fields, end, field, is_allowed, all_allowed, join, list_all_member,
  list_fields,
}
use east.Config.Members.{AllAllowed, list_all_member-AllAllowed}

-- Every node of a file with the keys that lead to it, joined by full stops, whatever characters they have.
abbrev mutual
  pub all_nodes : List ℕ → Node → List (List ℕ × Node)
  all_nodes path (scalar s) = (path, scalar s) ∷ []
  all_nodes path (other s) = (path, other s) ∷ []
  all_nodes path (mapping fs) = (path, mapping fs) ∷ field_nodes path fs

  pub field_nodes : List ℕ → Fields → List (List ℕ × Node)
  field_nodes path end = []
  field_nodes path (field key node fs) = all_nodes (join path key) node ++ field_nodes path fs

-- The nodes that stand under a name, in order.
abbrev pub named : List ℕ → List (List ℕ × Node) → List Node
named name [] = []
named name (([], v) ∷ members) = named name members
named name ((c ∷ k, v) ∷ members) =
    let rest = named name members in if same_text (c ∷ k) name then v ∷ rest else rest

named-append :
    (name : List ℕ) (xs ys : List (List ℕ × Node))
    → named name (xs ++ ys) ≡ named name xs ++ named name ys
named-append name [] ys = refl
named-append name (([], v) ∷ xs) ys = named-append name xs ys
named-append name ((c ∷ k, v) ∷ xs) ys = elim (Bool-cases (same_text (c ∷ k) name)) [
  | inl e ↦ rw (e) (ap (λ l. v ∷ l) (named-append name xs ys))
  | inr e ↦ rw (e) (named-append name xs ys)
]

-- A head in front of two lists that agree.
named_head :
    (name path : List ℕ) (v : Node) (xs ys : List (List ℕ × Node))
    → named name xs ≡ named name ys
    → named name ((path, v) ∷ xs) ≡ named name ((path, v) ∷ ys)
named_head name [] v xs ys h = h
named_head name (c ∷ k) v xs ys h = ap (λ l. if same_text (c ∷ k) name then v ∷ l else l) h

all_allowed-append_false : (s t : List ℕ) → all_allowed s ≡ false → all_allowed (s ++ t) ≡ false
all_allowed-append_false [] t h = absurd (cc (h))
all_allowed-append_false (c ∷ s) t h = elim (Bool-cases (is_allowed c)) [
  | inl e ↦ rw (e) (all_allowed-append_false s t (sym (rw (e) refl) ∙ h))
  | inr e ↦ rw (e) refl
]

join_not_allowed :
    (path key : List ℕ) → all_allowed path ≡ false → all_allowed (join path key) ≡ false
join_not_allowed [] key h = absurd (cc (h))
join_not_allowed (c ∷ path) key h = all_allowed-append_false (c ∷ path) (46 ∷ key) h

not_name :
    (name path : List ℕ)
    → all_allowed name ≡ true
    → all_allowed path ≡ false
    → same_text path name ≡ false
not_name name path h h' = elim (Bool-cases (same_text path name)) [
  | inl e ↦ absurd (cc (sym h ∙ sym (ap all_allowed (same_text_sound path name e)) ∙ h'))
  | inr e ↦ e
]

module _ (name : List ℕ) (allowed : all_allowed name ≡ true) where
  -- What stands below a path that is not allowed is not under the name.
  skip_head :
      (path : List ℕ) (v : Node) (xs : List (List ℕ × Node))
      → all_allowed path ≡ false
      → named name xs ≡ []
      → named name ((path, v) ∷ xs) ≡ []
  skip_head [] v xs h e = e
  skip_head (c ∷ k) v xs h e = rw (not_name name (c ∷ k) allowed h) e

  mutual
    nothing_below :
        (path : List ℕ) (v : Node) → all_allowed path ≡ false → named name (all_nodes path v) ≡ []
    nothing_below path (scalar s) h = skip_head path (scalar s) [] h refl
    nothing_below path (other s) h = skip_head path (other s) [] h refl
    nothing_below path (mapping fs) h =
        skip_head path (mapping fs) (field_nodes path fs) h (nothing_inside path fs h)

    nothing_inside :
        (path : List ℕ) (fs : Fields)
        → all_allowed path ≡ false
        → named name (field_nodes path fs) ≡ []
    nothing_inside path end h = refl
    nothing_inside path (field key v fs) h =
        named-append name (all_nodes (join path key) v) (field_nodes path fs)
        ∙ ap (λ l. l ++ named name (field_nodes path fs))
            (nothing_below (join path key) v (join_not_allowed path key h))
        ∙ nothing_inside path fs h

  mutual
    listed_below :
        (path : List ℕ) (v : Node)
        → named name (list_all_member path v) ≡ named name (all_nodes path v)
    listed_below path (scalar s) = elim (Bool-cases (all_allowed path)) [
      | inl e ↦ rw (e) refl
      | inr e ↦ rw (e) (sym (nothing_below path (scalar s) e))
    ]
    listed_below path (other s) = elim (Bool-cases (all_allowed path)) [
      | inl e ↦ rw (e) refl
      | inr e ↦ rw (e) (sym (nothing_below path (other s) e))
    ]
    listed_below path (mapping fs) = elim (Bool-cases (all_allowed path)) [
      | inl e ↦ rw (e) (
          named_head name path (mapping fs) (list_fields path fs) (field_nodes path fs)
            (listed_inside path fs))
      | inr e ↦ rw (e) (sym (nothing_below path (mapping fs) e))
    ]

    listed_inside :
        (path : List ℕ) (fs : Fields)
        → named name (list_fields path fs) ≡ named name (field_nodes path fs)
    listed_inside path end = refl
    listed_inside path (field key v fs) =
        named-append name (list_all_member (join path key) v) (list_fields path fs)
        ∙ ap (λ l. l ++ named name (list_fields path fs)) (listed_below (join path key) v)
        ∙ ap (λ l. named name (all_nodes (join path key) v) ++ l) (listed_inside path fs)
        ∙ sym (named-append name (all_nodes (join path key) v) (field_nodes path fs))

not_listed :
    (name : List ℕ) (members : List (List ℕ × Node))
    → all_allowed name ≡ false
    → AllAllowed members
    → named name members ≡ []
not_listed name [] h hs = refl
not_listed name (([], v) ∷ members) h (a, hs) = not_listed name members h hs
not_listed name ((c ∷ k, v) ∷ members) h (a, hs) = elim (Bool-cases (same_text (c ∷ k) name)) [
  | inl e ↦ absurd (cc (sym a ∙ ap all_allowed (same_text_sound (c ∷ k) name e) ∙ h))
  | inr e ↦ rw (e) (not_listed name members h hs)
]

-- The nodes that a file has for a name: all those under it if its characters are allowed, and otherwise none.
abbrev pub nodes_for : List ℕ → Node → List Node
nodes_for name root = if all_allowed name then named name (all_nodes [] root) else []

pub named-list_all_member :
    (name : List ℕ) (root : Node) → named name (list_all_member [] root) ≡ nodes_for name root
named-list_all_member name root = elim (Bool-cases (all_allowed name)) [
  | inl e ↦ rw (e) (listed_below name e [] root)
  | inr e ↦
      rw (e) (not_listed name (list_all_member [] root) e (list_all_member-AllAllowed [] root))
]
