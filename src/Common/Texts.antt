-- ===== src/Common/Texts.antt =====
-- Texts as lists of codes.
use Prim.Native.Nat.{ℕ}
use Prim.Native.Char.{code}
use Prim.Native.String.{String}
use mathlib.Core.List.{List, [], ◌∷◌}
use mathlib.Core.Path.{◌≡◌, refl}
use mathlib.Core.Bool.{Bool, true, false, ◌&&◌}
use native.Mathlib.Omega.{arith}
use east.Common.Tests.{◌==◌}

-- The bytes of an ASCII text.
abbrev pub codes : String → List ℕ
codes String.[] = []
codes (String.◌∷◌ c s) = code c ∷ codes s

-- `==` of two texts.
abbrev pub same_text : List ℕ → List ℕ → Bool
same_text [] [] = true
same_text (x ∷ xs) (y ∷ ys) = (x == y) && same_text xs ys
same_text _ _ = false

eq→same : (x y : ℕ) → (x == y) ≡ true → x ≡ y
eq→same x y h = ground arith

pub and_both : (a b : Bool) → a && b ≡ true → (a ≡ true) × (b ≡ true)
and_both true true h = (refl, refl)
and_both true false h = absurd (cc (h))
and_both false b h = absurd (cc (h))

pub same_text_sound : (xs ys : List ℕ) → same_text xs ys ≡ true → xs ≡ ys
same_text_sound [] [] h = refl
same_text_sound [] (y ∷ ys) h = absurd (cc (h))
same_text_sound (x ∷ xs) [] h = absurd (cc (h))
same_text_sound (x ∷ xs) (y ∷ ys) h =
    let (e, d) = and_both (x == y) (same_text xs ys) h in
    cc (eq→same x y e, same_text_sound xs ys d)

eq_self : (x : ℕ) → (x == x) ≡ true
eq_self x = ground arith

pub same_text_refl : (xs : List ℕ) → same_text xs xs ≡ true
same_text_refl [] = refl
same_text_refl (x ∷ xs) = rw (eq_self x) (same_text_refl xs)
