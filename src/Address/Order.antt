-- ===== src/Address/Order.antt =====
-- `operator<` and `operator==` of East/src/Address.cc: bytes compared in the order of a dictionary.
use east.Common.{
  ℕ, suc, ◌<◌, min, ◌≡◌, ◌⊎◌, inl, inr, refl, sym, ap, ◌∙◌, arith, Bool, true, false, ◌&&◌, List,
  [], ◌∷◌, if◌then◌else◌, ltb, ◌==◌, length, Bool-cases, ltb→lt, lt→ltb, le→ltb-false,
}
use east.Address.{less, equal}

-- The order of a dictionary.
pub data Lex : List ℕ → List ℕ → Type 0 where
  shorter : {y : ℕ} {ys : List ℕ} → Lex [] (y ∷ ys)
  smaller : {x y : ℕ} {xs ys : List ℕ} → x < y → Lex (x ∷ xs) (y ∷ ys)
  later : {x y : ℕ} {xs ys : List ℕ} → x ≡ y → Lex xs ys → Lex (x ∷ xs) (y ∷ ys)

min-suc : (a b : ℕ) → min (suc a) (suc b) ≡ suc (min a b)
min-suc a b = omega arith

min_zero_left : (a : ℕ) → min 0 a ≡ 0
min_zero_left a = omega arith

min_zero_right : (a : ℕ) → min a 0 ≡ 0
min_zero_right a = omega arith

eq_suc : (a b : ℕ) → (suc a == suc b) ≡ (a == b)
eq_suc a b = ground arith

pub lt→eq-false : (a b : ℕ) → a < b → (a == b) ≡ false
lt→eq-false a b h = ground arith

pub gt→eq-false : (a b : ℕ) → b < a → (a == b) ≡ false
gt→eq-false a b h = ground arith

pub ltb_same : (a b : ℕ) → ltb a b ≡ false → ltb b a ≡ false → a ≡ b
ltb_same a b h h' = ground arith

pub eq_same : (a b : ℕ) → a ≡ b → (a == b) ≡ true
eq_same a b h = ground arith

and_false : (b : Bool) → b && false ≡ false
and_false true = refl
and_false false = refl

ltb-suc : (a b : ℕ) → ltb (suc a) (suc b) ≡ ltb a b
ltb-suc a b = ground arith

pub less_cons :
    (x y : ℕ) (xs ys : List ℕ)
    → less (x ∷ xs) (y ∷ ys) ≡ (if ltb x y then true else if ltb y x then false else less xs ys)
unfolding less
less_cons x y xs ys =
    rw (min-suc (length xs) (length ys), ltb-suc (length xs) (length ys))
      (elim (Bool-cases (ltb x y)) [
        | inl e ↦ rw (e) refl
        | inr e ↦ rw (e) (elim (Bool-cases (ltb y x)) [ inl d ↦ rw (d) refl | inr d ↦ rw (d) refl ])
      ])

pub less_short : (y : ℕ) (ys : List ℕ) → less [] (y ∷ ys) ≡ true
unfolding less
less_short y ys = rw (min_zero_left (suc (length ys))) (lt→ltb 0 (suc (length ys)) (omega arith))

pub less_long : (x : ℕ) (xs : List ℕ) → less (x ∷ xs) [] ≡ false
unfolding less
less_long x xs =
    rw (min_zero_right (suc (length xs))) (le→ltb-false (suc (length xs)) 0 (omega arith))

pub nothing_less : less [] [] ≡ false
unfolding less
nothing_less = refl

pub equal_cons : (x y : ℕ) (xs ys : List ℕ) → equal (x ∷ xs) (y ∷ ys) ≡ (x == y) && equal xs ys
unfolding equal
equal_cons x y xs ys = rw (eq_suc (length xs) (length ys)) (elim (Bool-cases (ltb x y)) [
  | inl e ↦ rw (e, lt→eq-false x y (ltb→lt x y e)) (and_false (length xs == length ys))
  | inr e ↦ rw (e) (elim (Bool-cases (ltb y x)) [
    | inl d ↦ rw (d, gt→eq-false x y (ltb→lt y x d)) (and_false (length xs == length ys))
    | inr d ↦ rw (d, eq_same x y (ltb_same x y e d)) refl
  ])
])

ltb_irreflexive : (x : ℕ) → ltb x x ≡ false
ltb_irreflexive x = ground arith

nothing_above : {l : List ℕ} → ¬ Lex l []
nothing_above {l = []} h = elim h [ ]
nothing_above {l = x ∷ l} h = elim h [ ]

Lex-cons :
    (x y : ℕ) (xs ys : List ℕ) (b c : Bool)
    → ltb x y ≡ b
    → ltb y x ≡ c
    → (less xs ys ≡ true → Lex xs ys)
    → (if b then true else if c then false else less xs ys) ≡ true
    → Lex (x ∷ xs) (y ∷ ys)
Lex-cons x y xs ys true c e d rest h = smaller (ltb→lt x y e)
Lex-cons x y xs ys false true e d rest h = absurd (cc (h))
Lex-cons x y xs ys false false e d rest h = later (ltb_same x y e d) (rest h)

less→Lex : (l r : List ℕ) → less l r ≡ true → Lex l r
less→Lex [] [] h = absurd (cc (h, nothing_less))
less→Lex [] (y ∷ ys) h = shorter
less→Lex (x ∷ xs) [] h = absurd (cc (h, less_long x xs))
less→Lex (x ∷ xs) (y ∷ ys) h =
    Lex-cons x y xs ys (ltb x y) (ltb y x) refl refl (less→Lex xs ys)
      (sym (less_cons x y xs ys) ∙ h)

Lex→less : (l r : List ℕ) → Lex l r → less l r ≡ true
Lex→less l [] h = absurd (nothing_above h)
Lex→less [] (y ∷ ys) shorter = less_short y ys
Lex→less (x ∷ xs) (y ∷ ys) (smaller h) = less_cons x y xs ys ∙ rw (lt→ltb x y h) refl
Lex→less (x ∷ xs) (y ∷ ys) (later h h') =
    less_cons x y xs ys
    ∙ rw (le→ltb-false x y (omega arith), le→ltb-false y x (omega arith)) (Lex→less xs ys h')

Lex-trans : (l m r : List ℕ) → Lex l m → Lex m r → Lex l r
Lex-trans l m [] h h' = absurd (nothing_above h')
Lex-trans l [] (z ∷ zs) h h' = absurd (nothing_above h)
Lex-trans [] (y ∷ ys) (z ∷ zs) shorter h = shorter
Lex-trans (x ∷ xs) (y ∷ ys) (z ∷ zs) (smaller h) (smaller h') = smaller (omega arith)
Lex-trans (x ∷ xs) (y ∷ ys) (z ∷ zs) (smaller h) (later e h') = smaller (omega arith)
Lex-trans (x ∷ xs) (y ∷ ys) (z ∷ zs) (later e h) (smaller h') = smaller (omega arith)
Lex-trans (x ∷ xs) (y ∷ ys) (z ∷ zs) (later e h) (later e' h') =
    later (e ∙ e') (Lex-trans xs ys zs h h')

-- Addresses are ordered through any third one.
pub less_trans : (l m r : List ℕ) → less l m ≡ true → less m r ≡ true → less l r ≡ true
less_trans l m r h h' = Lex→less l r (Lex-trans l m r (less→Lex l m h) (less→Lex m r h'))

pub equal_short : (y : ℕ) (ys : List ℕ) → equal [] (y ∷ ys) ≡ false
unfolding equal
equal_short y ys = ap (λ b. b && true) (lt→eq-false 0 (suc (length ys)) (omega arith))

pub equal_long : (x : ℕ) (xs : List ℕ) → equal (x ∷ xs) [] ≡ false
unfolding equal
equal_long x xs = ap (λ b. b && true) (gt→eq-false (suc (length xs)) 0 (omega arith))

same_head :
    (x y : ℕ) (xs ys : List ℕ)
    → x ≡ y
    → ((less xs ys ≡ true) × (equal xs ys ≡ false) × (less ys xs ≡ false))
      ⊎ ((less xs ys ≡ false) × (equal xs ys ≡ true) × (less ys xs ≡ false) × (xs ≡ ys))
      ⊎ ((less xs ys ≡ false) × (equal xs ys ≡ false) × (less ys xs ≡ true))
    → ((less xs ys ≡ true) × (equal xs ys ≡ false) × (less ys xs ≡ false))
      ⊎ ((less xs ys ≡ false) × (equal xs ys ≡ true) × (less ys xs ≡ false) × (x ∷ xs ≡ y ∷ ys))
      ⊎ ((less xs ys ≡ false) × (equal xs ys ≡ false) × (less ys xs ≡ true))
same_head x y xs ys e (inl h) = inl h
same_head x y xs ys e (inr (inl (a, b, c, d))) = inr (inl (a, b, c, cc (e, d)))
same_head x y xs ys e (inr (inr h)) = inr (inr h)

-- Two addresses are in exactly one of three relations: the first is below the second, the two are equal, which they
-- are where all their bytes are the same, or the second is below the first.
pub less_cases :
    (l r : List ℕ)
    → ((less l r ≡ true) × (equal l r ≡ false) × (less r l ≡ false))
      ⊎ ((less l r ≡ false) × (equal l r ≡ true) × (less r l ≡ false) × (l ≡ r))
      ⊎ ((less l r ≡ false) × (equal l r ≡ false) × (less r l ≡ true))
unfolding equal
less_cases [] [] = inr (inl (nothing_less, refl, nothing_less, refl))
less_cases [] (y ∷ ys) = inl (less_short y ys, equal_short y ys, less_long y ys)
less_cases (x ∷ xs) [] = inr (inr (less_long x xs, equal_long x xs, less_short x xs))
less_cases (x ∷ xs) (y ∷ ys) =
    rw (less_cons x y xs ys, less_cons y x ys xs, equal_cons x y xs ys)
      (elim (Bool-cases (ltb x y)) [
        | inl e ↦ inl (
          rw (e) refl,
          rw (lt→eq-false x y (ltb→lt x y e)) refl,
          rw (e, le→ltb-false y x (omega (arith, ltb→lt x y e))) refl,
        )
        | inr e ↦ elim (Bool-cases (ltb y x)) [
          | inl d ↦
              inr (inr (rw (e, d) refl, rw (gt→eq-false x y (ltb→lt y x d)) refl, rw (e, d) refl))
          | inr d ↦
              rw (e, d, eq_same x y (ltb_same x y e d))
                (same_head x y xs ys (ltb_same x y e d) (less_cases xs ys))
        ]
      ])
