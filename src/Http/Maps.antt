-- ===== src/Http/Maps.antt =====
-- The maps of East/http/Http.h under any changes.
pub mod Edits
use mathlib.Core.Path.{subst}
use east.Common.{
  ℕ, ◌≡◌, refl, sym, ap, ◌∙◌, ◌⊎◌, inl, inr, Bool, true, false, Option, none, some, List, [], ◌∷◌,
  if◌then◌else◌, ltb, Bool-cases, All,
}
use east.Address.{less, equal}
use east.Address.Order.{less_cons, less_short, less_long, nothing_less, less_cases, less_trans}
use east.Http.{
  compare_texts, fold_case, is_below, case_insensitive_less, MapType, find, assign, erase,
}

compare_less : (xs ys : List ℕ) → is_below (compare_texts xs ys) ≡ less xs ys
compare_less [] [] = sym nothing_less
compare_less [] (y ∷ ys) = sym (less_short y ys)
compare_less (x ∷ xs) [] = sym (less_long x xs)
compare_less (x ∷ xs) (y ∷ ys) = rw (less_cons x y xs ys) (elim (Bool-cases (ltb x y)) [
  | inl e ↦ rw (e) refl
  | inr e ↦
      rw (e)
        (elim (Bool-cases (ltb y x)) [ inl d ↦ rw (d) refl | inr d ↦ rw (d) (compare_less xs ys) ])
])

abbrev pub lt : List ℕ → List ℕ → Bool
lt = case_insensitive_less

-- Keys that are one key to the map.
abbrev pub same_key : List ℕ → List ℕ → Bool
same_key a b = equal (fold_case a) (fold_case b)

lt_lem : (a b : List ℕ) → lt a b ≡ less (fold_case a) (fold_case b)
unfolding case_insensitive_less
lt_lem a b = compare_less (fold_case a) (fold_case b)

-- How two keys may lie.
pub data Order (a b : List ℕ) : Type 0 where
  before : lt a b ≡ true → lt b a ≡ false → same_key a b ≡ false → Order a b
  level :
      lt a b ≡ false → lt b a ≡ false → same_key a b ≡ true → fold_case a ≡ fold_case b → Order a b
  after : lt a b ≡ false → lt b a ≡ true → same_key a b ≡ false → Order a b

pub order : (a b : List ℕ) → Order a b
order a b = elim (less_cases (fold_case a) (fold_case b)) [
  | inl (l, e, g) ↦ before (lt_lem a b ∙ l) (lt_lem b a ∙ g) e
  | inr (inl (l, e, g, s)) ↦ level (lt_lem a b ∙ l) (lt_lem b a ∙ g) e s
  | inr (inr (l, e, g)) ↦ after (lt_lem a b ∙ l) (lt_lem b a ∙ g) e
]

pub lt_trans : (a b c : List ℕ) → lt a b ≡ true → lt b c ≡ true → lt a c ≡ true
lt_trans a b c h h' =
    lt_lem a c
    ∙ less_trans (fold_case a) (fold_case b) (fold_case c) (sym (lt_lem a b) ∙ h)
        (sym (lt_lem b c) ∙ h')

-- One key may stand for another in the order.
pub lt-fold_left : (a b c : List ℕ) → fold_case a ≡ fold_case b → lt a c ≡ lt b c
lt-fold_left a b c e = lt_lem a c ∙ ap (λ f. less f (fold_case c)) e ∙ sym (lt_lem b c)

pub lt-fold_right : (a b c : List ℕ) → fold_case a ≡ fold_case b → lt c a ≡ lt c b
lt-fold_right a b c e = lt_lem c a ∙ ap (less (fold_case c)) e ∙ sym (lt_lem c b)

pub lt_asym : (a b : List ℕ) → lt a b ≡ true → lt b a ≡ false
lt_asym a b h = elim (order a b) [
  | before l g s ↦ g
  | level l g s e ↦ g
  | after l g s ↦ absurd (cc (h, l))
]

pub lt_not_same : (a b : List ℕ) → lt a b ≡ true → same_key a b ≡ false
lt_not_same a b h = elim (order a b) [
  | before l g s ↦ s
  | level l g s e ↦ absurd (cc (h, l))
  | after l g s ↦ s
]

-- Keys that rise, so that none stands twice.
abbrev pub Above : List ℕ → MapType → Type 0
Above k = All (λ e. lt k e.0 ≡ true)

abbrev pub IsSorted : MapType → Type 0
IsSorted [] = Unit {0}
IsSorted ((k, v) ∷ m) = Above k m × IsSorted m

pub Above-trans : (a b : List ℕ) (m : MapType) → lt a b ≡ true → Above b m → Above a m
Above-trans a b [] h all = tt
Above-trans a b ((k, v) ∷ m) h (g, all) = (lt_trans a b k h g, Above-trans a b m h all)

pub find-Above : (q : List ℕ) (m : MapType) → Above q m → find q m ≡ none
unfolding find
find-Above q [] all = refl
find-Above q ((k, v) ∷ m) (g, all) = rw (lt_asym q k g, g) refl
