-- ===== src/Http/Maps/Edits.antt =====
-- What the maps of East/http/Http.h give for a key after any changes.
use east.Common.{
  ℕ, ◌≡◌, refl, sym, ap, ◌∙◌, inl, inr, true, false, Option, none, some, List, [], ◌∷◌,
  if◌then◌else◌, Bool-cases,
}
use east.Address.{equal}
use east.Http.{fold_case, MapType, find, assign, erase}
use east.Http.Maps.{
  lt, same_key, before, level, after, order, lt_trans, lt_asym, lt-fold_left, lt-fold_right,
  lt_not_same, Above, IsSorted, Above-trans, find-Above,
}

same-fold : (q a b : List ℕ) → fold_case a ≡ fold_case b → same_key q a ≡ same_key q b
same-fold q a b e = ap (equal (fold_case q)) e

same-fold_left : (a b k : List ℕ) → fold_case a ≡ fold_case b → same_key a k ≡ same_key b k
same-fold_left a b k e = ap (λ f. equal f (fold_case k)) e

-- One look at the front of a map.
pub find-before :
    (q k v : List ℕ) (m : MapType) → lt q k ≡ true → lt k q ≡ false → find q ((k, v) ∷ m) ≡ none
unfolding find
find-before q k v m h g = rw (g, h) refl

pub find-level :
    (q k v : List ℕ) (m : MapType) → lt q k ≡ false → lt k q ≡ false → find q ((k, v) ∷ m) ≡ some v
unfolding find
find-level q k v m h g = rw (g, h) refl

pub find-after : (q k v : List ℕ) (m : MapType) → lt k q ≡ true → find q ((k, v) ∷ m) ≡ find q m
unfolding find
find-after q k v m g = rw (g) refl

-- The value that was assigned under this key, and else what was there.
find_front :
    (q k v : List ℕ) (m : MapType)
    → (lt q k ≡ true → find q m ≡ none)
    → find q ((k, v) ∷ m) ≡ (if same_key q k then some v else find q m)
find_front q k v m none_below = elim (order q k) [
  | before l g s ↦ find-before q k v m l g ∙ rw (s) (sym (none_below l))
  | level l g s e ↦ find-level q k v m l g ∙ rw (s) refl
  | after l g s ↦ find-after q k v m g ∙ rw (s) refl
]

pub find_empty : (q : List ℕ) → find q [] ≡ none
unfolding find
find_empty q = refl

pub find-assign :
    (q key val : List ℕ) (m : MapType)
    → find q (assign key val m) ≡ (if same_key q key then some val else find q m)
unfolding assign
find-assign q key val [] = find_front q key val [] (λ h. find_empty q)
find-assign q key val ((k, v) ∷ m) = elim (order key k) [
  | before l g s ↦
      rw (g, l)
        (find_front q key val ((k, v) ∷ m)
          (λ h. find-before q k v m (lt_trans q key k h l) (lt_asym q k (lt_trans q key k h l))))
  | level l g s e ↦
      rw (g, l, same-fold q key k e)
        (elim (order q k) [
          | before l' g' s' ↦
              rw (s') (find-before q k val m l' g' ∙ sym (find-before q k v m l' g'))
          | level l' g' s' e' ↦ rw (s') (find-level q k val m l' g')
          | after l' g' s' ↦ rw (s') (find-after q k val m g' ∙ sym (find-after q k v m g'))
        ])
  | after l g s ↦ rw (g) (elim (order q k) [
    | before l' g' s' ↦
        rw (lt_not_same q key (lt_trans q k key l' g))
          (find-before q k v (assign key val m) l' g' ∙ sym (find-before q k v m l' g'))
    | level l' g' s' e' ↦
        rw (same-fold_left q k key e', lt_not_same k key g)
          (find-level q k v (assign key val m) l' g' ∙ sym (find-level q k v m l' g'))
    | after l' g' s' ↦
        find-after q k v (assign key val m) g'
        ∙ find-assign q key val m
        ∙ ap (λ t. if same_key q key then some val else t) (sym (find-after q k v m g'))
  ])
]

Above-fold : (q k : List ℕ) (m : MapType) → fold_case q ≡ fold_case k → Above k m → Above q m
Above-fold q k [] e all = tt
Above-fold q k ((h, v) ∷ m) e (g, all) = (lt-fold_left q k h e ∙ g, Above-fold q k m e all)

-- None under the key that was erased, and else what was there.
find-erase :
    (q key : List ℕ) (m : MapType)
    → IsSorted m
    → find q (erase key m) ≡ (if same_key q key then none else find q m)
unfolding erase
find-erase q key [] h = elim (Bool-cases (same_key q key)) [
  | inl e ↦ rw (e) (find_empty q)
  | inr e ↦ rw (e) refl
]
find-erase q key ((k, v) ∷ m) (all, h) = elim (order key k) [
  | before l g s ↦
      rw (g, l)
        (elim (order q key) [
          | before l' g' s' ↦ rw (s') refl
          | level l' g' s' e' ↦
              rw (s')
                (find-before q k v m (lt-fold_left q key k e' ∙ l) (lt-fold_right q key k e' ∙ g))
          | after l' g' s' ↦ rw (s') refl
        ])
  | level l g s e ↦
      rw (g, l, same-fold q key k e)
        (elim (order q k) [
          | before l' g' s' ↦
              rw (s') (find-Above q m (Above-trans q k m l' all) ∙ sym (find-before q k v m l' g'))
          | level l' g' s' e' ↦ rw (s') (find-Above q m (Above-fold q k m e' all))
          | after l' g' s' ↦ rw (s') (sym (find-after q k v m g'))
        ])
  | after l g s ↦ rw (g) (elim (order q k) [
    | before l' g' s' ↦
        rw (lt_not_same q key (lt_trans q k key l' g))
          (find-before q k v (erase key m) l' g' ∙ sym (find-before q k v m l' g'))
    | level l' g' s' e' ↦
        rw (same-fold_left q k key e', lt_not_same k key g)
          (find-level q k v (erase key m) l' g' ∙ sym (find-level q k v m l' g'))
    | after l' g' s' ↦
        find-after q k v (erase key m) g'
        ∙ find-erase q key m h
        ∙ ap (λ t. if same_key q key then none else t) (sym (find-after q k v m g'))
  ])
]

-- Both changes keep the order.
Above-assign :
    (h key val : List ℕ) (m : MapType) → lt h key ≡ true → Above h m → Above h (assign key val m)
unfolding assign
Above-assign h key val [] below all = (below, tt)
Above-assign h key val ((k, v) ∷ m) below (g, all) = elim (order key k) [
  | before l r s ↦ rw (r, l) (below, (g, all))
  | level l r s e ↦ rw (r, l) (g, all)
  | after l r s ↦ rw (r) (g, Above-assign h key val m below all)
]

assign-IsSorted : (key val : List ℕ) (m : MapType) → IsSorted m → IsSorted (assign key val m)
unfolding assign
assign-IsSorted key val [] h = (tt, tt)
assign-IsSorted key val ((k, v) ∷ m) (all, h) = elim (order key k) [
  | before l r s ↦ rw (r, l) ((l, Above-trans key k m l all), (all, h))
  | level l r s e ↦ rw (r, l) (all, h)
  | after l r s ↦ rw (r) (Above-assign k key val m r all, assign-IsSorted key val m h)
]

Above-erase : (h key : List ℕ) (m : MapType) → Above h m → Above h (erase key m)
unfolding erase
Above-erase h key [] all = tt
Above-erase h key ((k, v) ∷ m) (g, all) = elim (order key k) [
  | before l r s ↦ rw (r, l) (g, all)
  | level l r s e ↦ rw (r, l) all
  | after l r s ↦ rw (r) (g, Above-erase h key m all)
]

erase-IsSorted : (key : List ℕ) (m : MapType) → IsSorted m → IsSorted (erase key m)
unfolding erase
erase-IsSorted key [] h = tt
erase-IsSorted key ((k, v) ∷ m) (all, h) = elim (order key k) [
  | before l r s ↦ rw (r, l) (all, h)
  | level l r s e ↦ rw (r, l) h
  | after l r s ↦ rw (r) (Above-erase k key m all, erase-IsSorted key m h)
]

-- Changes of a map, the last one in front.
pub data Edit : Type 0 where
  sets : List ℕ → List ℕ → Edit
  deletes : List ℕ → Edit

abbrev pub perform : Edit → MapType → MapType
perform (sets key val) m = assign key val m
perform (deletes key) m = erase key m

abbrev pub edited : List Edit → MapType
edited [] = []
edited (e ∷ es) = perform e (edited es)

-- The last change that is about this key, in whatever case it was written.
abbrev pub last_value : List ℕ → List Edit → Option (List ℕ)
last_value q [] = none
last_value q (sets key val ∷ es) =
    let older = last_value q es in if same_key q key then some val else older
last_value q (deletes key ∷ es) =
    let older = last_value q es in if same_key q key then none else older

pub edited-IsSorted : (es : List Edit) → IsSorted (edited es)
edited-IsSorted [] = tt
edited-IsSorted (sets key val ∷ es) = assign-IsSorted key val (edited es) (edited-IsSorted es)
edited-IsSorted (deletes key ∷ es) = erase-IsSorted key (edited es) (edited-IsSorted es)

-- After any changes of an empty map, by assignments and deletions, a key has the value of the last assignment to it,
-- and none if it was deleted since or never assigned, where the case of letters makes no difference; and the keys
-- rise in the order of `strcasecmp`.
pub find-edited :
    (q : List ℕ) (es : List Edit) → (find q (edited es) ≡ last_value q es) × IsSorted (edited es)
find-edited q [] = (find_empty q, tt)
find-edited q (sets key val ∷ es) = (
  find-assign q key val (edited es)
      ∙ ap (λ t. if same_key q key then some val else t) ((find-edited q es).0),
  edited-IsSorted (sets key val ∷ es),
)
find-edited q (deletes key ∷ es) = (
  find-erase q key (edited es) (edited-IsSorted es)
      ∙ ap (λ t. if same_key q key then none else t) ((find-edited q es).0),
  edited-IsSorted (deletes key ∷ es),
)
