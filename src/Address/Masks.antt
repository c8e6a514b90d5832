-- ===== src/Address/Masks.antt =====
-- Masks of low bits, and `&` and `|` of numbers whose bytes are in the other order.
use Prim.Native.Nat.{bit_and, bit_or}
use mathlib.Core.Path.{ap₂}
use native.Mathlib.Nat.{two-pow-succ, one-le-pow, mod-lt, div-add-mod', div-lt_iff_lt-mul}
use east.Common.{ℕ, zero, suc, ◌+◌, ◌-◌, ◌*◌, ◌/◌, ◌%◌, ◌^◌, ◌<◌, ◌≡◌, refl, sym, ap, ◌∙◌, arith}
use east.Common.Bits.{and_halves, or_halves}

whole : (a : ℕ) → a * 1 + 0 ≡ a
whole a = omega arith

half_up : (k a b : ℕ) → (a * 2 ^ suc k + b) / 2 ≡ a * 2 ^ k + b / 2
half_up k a b = omega (arith, ap (λ (t : ℕ). a * t) (two-pow-succ k))

parity_up : (k a b : ℕ) → (a * 2 ^ suc k + b) % 2 ≡ b % 2
parity_up k a b = omega (arith, ap (λ (t : ℕ). a * t) (two-pow-succ k))

-- High and low parts go their own ways.
pub bit_and_split :
    (k a b c d : ℕ)
    → b < 2 ^ k
    → d < 2 ^ k
    → bit_and (a * 2 ^ k + b) (c * 2 ^ k + d) ≡ bit_and a c * 2 ^ k + bit_and b d
bit_and_split zero a zero c zero h h' = ap₂ bit_and (whole a) (whole c) ∙ sym (omega arith)
bit_and_split zero a (suc b) c d h h' = absurd (omega arith)
bit_and_split zero a zero c (suc d) h h' = absurd (omega arith)
bit_and_split (suc k) a b c d h h' = omega (
  arith,
  and_halves (a * 2 ^ suc k + b) (c * 2 ^ suc k + d),
  half_up k a b,
  half_up k c d,
  parity_up k a b,
  parity_up k c d,
  ap (bit_and ((a * 2 ^ suc k + b) / 2)) (half_up k c d),
  ap (λ x. bit_and x (c * 2 ^ k + d / 2)) (half_up k a b),
  and_halves b d,
  bit_and_split k a (b / 2) c (d / 2) (omega (arith, two-pow-succ k))
      (omega (arith, two-pow-succ k)),
  ap (λ (t : ℕ). bit_and a c * t) (two-pow-succ k),
)

pub bit_or_split :
    (k a b c d : ℕ)
    → b < 2 ^ k
    → d < 2 ^ k
    → bit_or (a * 2 ^ k + b) (c * 2 ^ k + d) ≡ bit_or a c * 2 ^ k + bit_or b d
bit_or_split zero a zero c zero h h' = ap₂ bit_or (whole a) (whole c) ∙ sym (omega arith)
bit_or_split zero a (suc b) c d h h' = absurd (omega arith)
bit_or_split zero a zero c (suc d) h h' = absurd (omega arith)
bit_or_split (suc k) a b c d h h' = omega (
  arith,
  or_halves (a * 2 ^ suc k + b) (c * 2 ^ suc k + d),
  half_up k a b,
  half_up k c d,
  parity_up k a b,
  parity_up k c d,
  ap (bit_or ((a * 2 ^ suc k + b) / 2)) (half_up k c d),
  ap (λ x. bit_or x (c * 2 ^ k + d / 2)) (half_up k a b),
  or_halves b d,
  bit_or_split k a (b / 2) c (d / 2) (omega (arith, two-pow-succ k))
      (omega (arith, two-pow-succ k)),
  ap (λ (t : ℕ). bit_or a c * t) (two-pow-succ k),
)

half_ones : (k : ℕ) → (2 ^ suc k - 1) / 2 ≡ 2 ^ k - 1
half_ones k = omega (arith, two-pow-succ k, one-le-pow k 2 (omega arith))

odd_ones : (k : ℕ) → (2 ^ suc k - 1) % 2 ≡ 1
odd_ones k = omega (arith, two-pow-succ k, one-le-pow k 2 (omega arith))

-- Every bit of the mask set, and none.
pub bit_and_ones : (k x : ℕ) → x < 2 ^ k → bit_and x (2 ^ k - 1) ≡ x
bit_and_ones zero zero h = refl
bit_and_ones zero (suc x) h = absurd (omega arith)
bit_and_ones (suc k) x h = omega (
  arith,
  and_halves x (2 ^ suc k - 1),
  ap (bit_and (x / 2)) (half_ones k),
  odd_ones k,
  bit_and_ones k (x / 2) (omega (arith, two-pow-succ k)),
)

pub bit_or_ones : (k x : ℕ) → x < 2 ^ k → bit_or x (2 ^ k - 1) ≡ 2 ^ k - 1
bit_or_ones zero zero h = refl
bit_or_ones zero (suc x) h = absurd (omega arith)
bit_or_ones (suc k) x h = omega (
  arith,
  or_halves x (2 ^ suc k - 1),
  ap (bit_or (x / 2)) (half_ones k),
  odd_ones k,
  half_ones k,
  two-pow-succ k,
  one-le-pow k 2 (omega arith),
  bit_or_ones k (x / 2) (omega (arith, two-pow-succ k)),
)

pub bit_and_zero : (k x : ℕ) → x < 2 ^ k → bit_and x 0 ≡ 0
bit_and_zero zero zero h = refl
bit_and_zero zero (suc x) h = absurd (omega arith)
bit_and_zero (suc k) x h =
    omega (arith, and_halves x 0, bit_and_zero k (x / 2) (omega (arith, two-pow-succ k)))

pub bit_or_zero : (k x : ℕ) → x < 2 ^ k → bit_or x 0 ≡ x
bit_or_zero zero zero h = refl
bit_or_zero zero (suc x) h = absurd (omega arith)
bit_or_zero (suc k) x h =
    omega (arith, or_halves x 0, bit_or_zero k (x / 2) (omega (arith, two-pow-succ k)))

-- The results keep to the bits of the arguments.
pub bit_and_bound : (k x y : ℕ) → x < 2 ^ k → y < 2 ^ k → bit_and x y < 2 ^ k
bit_and_bound zero zero zero h h' = h
bit_and_bound zero (suc x) y h h' = absurd (omega arith)
bit_and_bound zero zero (suc y) h h' = absurd (omega arith)
bit_and_bound (suc k) x y h h' = omega (
  arith,
  and_halves x y,
  two-pow-succ k,
  bit_and_bound k (x / 2) (y / 2) (omega (arith, two-pow-succ k)) (omega (arith, two-pow-succ k)),
)

pub bit_or_bound : (k x y : ℕ) → x < 2 ^ k → y < 2 ^ k → bit_or x y < 2 ^ k
bit_or_bound zero zero zero h h' = h
bit_or_bound zero (suc x) y h h' = absurd (omega arith)
bit_or_bound zero zero (suc y) h h' = absurd (omega arith)
bit_or_bound (suc k) x y h h' = omega (
  arith,
  or_halves x y,
  two-pow-succ k,
  bit_or_bound k (x / 2) (y / 2) (omega (arith, two-pow-succ k)) (omega (arith, two-pow-succ k)),
)

two_pow_positive : (k : ℕ) → 0 < 2 ^ k
two_pow_positive k = one-le-pow k 2 (omega arith)

parts : (k x : ℕ) → x / 2 ^ k * 2 ^ k + x % 2 ^ k ≡ x
parts k x = div-add-mod' x (2 ^ k)

part_bound : (k x : ℕ) → x % 2 ^ k < 2 ^ k
part_bound k x = mod-lt x (two_pow_positive k)

-- The bits of a number from `k` on, cleared and set.
pub bit_and_high :
    (n k x : ℕ) → x < 2 ^ n * 2 ^ k → bit_and x ((2 ^ n - 1) * 2 ^ k) ≡ x / 2 ^ k * 2 ^ k
bit_and_high n k x h =
    ap₂ bit_and (sym (parts k x)) (sym (omega arith))
    ∙ bit_and_split k (x / 2 ^ k) (x % 2 ^ k) (2 ^ n - 1) 0 (part_bound k x) (two_pow_positive k)
    ∙ ap₂ (λ (a b : ℕ). a * 2 ^ k + b) (bit_and_ones n (x / 2 ^ k) q)
        (bit_and_zero k (x % 2 ^ k) (part_bound k x))
    ∙ omega arith
  where
    q : x / 2 ^ k < 2 ^ n
    q = (div-lt_iff_lt-mul {k = 2 ^ k} (two_pow_positive k)).1 h

pub bit_or_low :
    (n k x : ℕ) → x < 2 ^ n * 2 ^ k → bit_or x (2 ^ k - 1) ≡ x / 2 ^ k * 2 ^ k + (2 ^ k - 1)
bit_or_low n k x h =
    ap₂ bit_or (sym (parts k x)) (sym (omega arith))
    ∙ bit_or_split k (x / 2 ^ k) (x % 2 ^ k) 0 (2 ^ k - 1) (part_bound k x)
        (omega (arith, two_pow_positive k))
    ∙ ap₂ (λ (a b : ℕ). a * 2 ^ k + b) (bit_or_zero n (x / 2 ^ k) q)
        (bit_or_ones k (x % 2 ^ k) (part_bound k x))
  where
    q : x / 2 ^ k < 2 ^ n
    q = (div-lt_iff_lt-mul {k = 2 ^ k} (two_pow_positive k)).1 h

add_zero_left : (k : ℕ) → 0 + k ≡ k
add_zero_left k = omega arith

add_suc_left : (n k : ℕ) → suc n + k ≡ suc (n + k)
add_suc_left n k = omega arith

pub two_pow_add : (n k : ℕ) → 2 ^ n * 2 ^ k ≡ 2 ^ (n + k)
two_pow_add zero k = omega (arith, ap (λ (t : ℕ). 2 ^ t) (add_zero_left k))
two_pow_add (suc n) k = omega (
  arith,
  ap (λ (t : ℕ). 2 ^ t) (add_suc_left n k),
  two-pow-succ (n + k),
  two_pow_add n k,
  ap (λ (t : ℕ). t * 2 ^ k) (two-pow-succ n),
)
