-- ===== src/Common/Bits.antt =====
-- `|`, `&` and `^` of the encoders as arithmetic: disjoint fields, low masks, and all ones.
use Prim.Native.Nat.{
  ℕ, zero, suc, ◌+◌, ◌-◌, ◌*◌, ◌/◌, ◌%◌, ◌^◌, ◌≤◌, ◌<◌, min, max, bit_and, bit_or, bit_xor, digits,
  bitwise, differ, bit_and-bitwise, bit_or-bitwise, bit_xor-bitwise,
}
use mathlib.Core.Path.{◌≡◌, refl, ap, ◌∙◌}
use native.Mathlib.Nat.{two-pow-succ, one-le-pow}
use native.Mathlib.Omega.{arith}

-- The native operations stand for a recursion on halves, with a number for fuel. From here on the
-- fuel is gone: one equation gives the lowest bit.
module _ (above : ℕ → ℕ) (bit : ℕ → ℕ → ℕ) where
  enough_fuel : (k l x y : ℕ) → x ≤ k → x ≤ l → digits above bit k x y ≡ digits above bit l x y
  enough_fuel zero zero x y p q = refl
  enough_fuel zero (suc l) zero y p q = refl
  enough_fuel (suc k) zero zero y p q = refl
  enough_fuel (suc k) (suc l) zero y p q = refl
  enough_fuel zero l (suc x) y p q = absurd (omega arith)
  enough_fuel (suc k) zero (suc x) y p q = absurd (omega arith)
  enough_fuel (suc k) (suc l) (suc x) y p q =
      ap (λ d. d * 2 + bit (suc x % 2) (y % 2))
        (enough_fuel k l (suc x / 2) (y / 2) (omega arith) (omega arith))

  lowest_bit :
      (x y : ℕ)
      → bitwise above bit (suc x) y
        ≡ bitwise above bit (suc x / 2) (y / 2) * 2 + bit (suc x % 2) (y % 2)
  lowest_bit x y =
      ap (λ d. d * 2 + bit (suc x % 2) (y % 2))
        (enough_fuel x (suc x / 2) (suc x / 2) (y / 2) (omega arith) (omega arith))

pub or_halves : (x y : ℕ) → bit_or x y ≡ bit_or (x / 2) (y / 2) * 2 + max (x % 2) (y % 2)
or_halves zero y = simp bit_or-bitwise (omega arith)
or_halves (suc x) y = simp bit_or-bitwise (lowest_bit (λ b. b) max x y)

pub and_halves : (x y : ℕ) → bit_and x y ≡ bit_and (x / 2) (y / 2) * 2 + min (x % 2) (y % 2)
and_halves zero y = simp bit_and-bitwise (omega arith)
and_halves (suc x) y = simp bit_and-bitwise (lowest_bit (λ b. zero) min x y)

xor_halves : (x y : ℕ) → bit_xor x y ≡ bit_xor (x / 2) (y / 2) * 2 + differ (x % 2) (y % 2)
xor_halves zero y = simp bit_xor-bitwise (omega arith)
xor_halves (suc x) y = simp bit_xor-bitwise (lowest_bit (λ b. b) differ x y)

or_zero_left : (y : ℕ) → bit_or 0 y ≡ y
or_zero_left y = bit_or-bitwise 0 y

differ_bit : (r : ℕ) → r < 2 → (differ r 0 ≡ r) × (differ r 1 ≡ 1 - r)
differ_bit zero h = (refl, refl)
differ_bit (suc zero) h = (refl, refl)
differ_bit (suc (suc r)) h = absurd (omega arith)

half-shift : (k q : ℕ) → q * 2 ^ suc k / 2 ≡ q * 2 ^ k
half-shift k q = omega (arith, ap (λ (t : ℕ). q * t) (two-pow-succ k))

-- `acc | (q << k)` is a sum where `acc` has no bit from `k` on.
pub bit_or_add : (k acc q : ℕ) → acc < 2 ^ k → bit_or acc (q * 2 ^ k) ≡ acc + q * 2 ^ k
bit_or_add zero zero q h = or_zero_left (q * 1) ∙ omega arith
bit_or_add zero (suc acc) q h = absurd (omega arith)
bit_or_add (suc k) acc q h = omega (
  arith,
  or_halves acc (q * 2 ^ suc k),
  ap (bit_or (acc / 2)) (half-shift k q),
  half-shift k q,
  ap (λ (t : ℕ). q * t) (two-pow-succ k),
  bit_or_add k (acc / 2) q (omega (arith, two-pow-succ k)),
)

-- Zero bits are none of `&`, and change nothing under `^`.
and_zero : (k x : ℕ) → x < 2 ^ k → bit_and x 0 ≡ 0
and_zero zero zero h = refl
and_zero zero (suc x) h = absurd (omega arith)
and_zero (suc k) x h =
    omega (arith, and_halves x 0, and_zero k (x / 2) (omega (arith, two-pow-succ k)))

pub bit_xor_zero : (k x : ℕ) → x < 2 ^ k → bit_xor x 0 ≡ x
bit_xor_zero zero zero h = refl
bit_xor_zero zero (suc x) h = absurd (omega arith)
bit_xor_zero (suc k) x h = omega (
  arith,
  xor_halves x 0,
  differ_bit (x % 2) (omega arith),
  bit_xor_zero k (x / 2) (omega (arith, two-pow-succ k)),
)

-- All ones turn every bit round.
pub bit_xor_ones : (k x : ℕ) → x < 2 ^ k → bit_xor x (2 ^ k - 1) ≡ 2 ^ k - 1 - x
bit_xor_ones zero zero h = refl
bit_xor_ones zero (suc x) h = absurd (omega arith)
bit_xor_ones (suc k) x h = omega (
  arith,
  xor_halves x (2 ^ suc k - 1),
  two-pow-succ k,
  one-le-pow k 2 (omega arith),
  ap (bit_xor (x / 2)) half_ones,
  ap (differ (x % 2)) odd_ones,
  differ_bit (x % 2) (omega arith),
  bit_xor_ones k (x / 2) (omega (arith, two-pow-succ k)),
)
  where
    half_ones : (2 ^ suc k - 1) / 2 ≡ 2 ^ k - 1
    half_ones = omega (arith, two-pow-succ k, one-le-pow k 2 (omega arith))

    odd_ones : (2 ^ suc k - 1) % 2 ≡ 1
    odd_ones = omega (arith, two-pow-succ k, one-le-pow k 2 (omega arith))

-- The low bits of a word of 64 bits, up to seven.
pub bit_and_one : (x : ℕ) → x < 2 ^ 64 → bit_and x 1 ≡ x % 2
bit_and_one x h = omega (arith, and_halves x 1, and_zero 63 (x / 2) (omega arith))

-- One more low bit in the mask.
and_more :
    (x mask low : ℕ) → bit_and (x / 2) mask ≡ low → bit_and x (mask * 2 + 1) ≡ low * 2 + x % 2
and_more x mask low e =
    omega (arith, and_halves x (mask * 2 + 1), ap (bit_and (x / 2)) half, min_one, e)
  where
    half : (mask * 2 + 1) / 2 ≡ mask
    half = omega arith

    min_one : min (x % 2) ((mask * 2 + 1) % 2) ≡ x % 2
    min_one = omega arith

and_0x03 : (x : ℕ) → x < 2 ^ 64 → bit_and x 0x03 ≡ x % 4
and_0x03 x h = and_more x 1 (x / 2 % 2) (bit_and_one (x / 2) (omega arith)) ∙ omega arith

and_0x07 : (x : ℕ) → x < 2 ^ 64 → bit_and x 0x07 ≡ x % 8
and_0x07 x h = and_more x 3 (x / 2 % 4) (and_0x03 (x / 2) (omega arith)) ∙ omega arith

and_0x0f : (x : ℕ) → x < 2 ^ 64 → bit_and x 0x0f ≡ x % 16
and_0x0f x h = and_more x 7 (x / 2 % 8) (and_0x07 (x / 2) (omega arith)) ∙ omega arith

and_0x1f : (x : ℕ) → x < 2 ^ 64 → bit_and x 0x1f ≡ x % 32
and_0x1f x h = and_more x 15 (x / 2 % 16) (and_0x0f (x / 2) (omega arith)) ∙ omega arith

and_0x3f : (x : ℕ) → x < 2 ^ 64 → bit_and x 0x3f ≡ x % 64
and_0x3f x h = and_more x 31 (x / 2 % 32) (and_0x1f (x / 2) (omega arith)) ∙ omega arith

pub bit_and_0x7f : (x : ℕ) → x < 2 ^ 64 → bit_and x 0x7f ≡ x % 128
bit_and_0x7f x h = and_more x 63 (x / 2 % 64) (and_0x3f (x / 2) (omega arith)) ∙ omega arith

pub bit_or_0x80 : (x : ℕ) → x < 128 → bit_or x 0x80 ≡ x + 128
bit_or_0x80 x h = bit_or_add 7 x 1 h

-- The bit above.
and_above : (x mask top : ℕ) → bit_and (x / 2) mask ≡ top → bit_and x (mask * 2) ≡ top * 2
and_above x mask top e =
    omega (arith, and_halves x (mask * 2), ap (bit_and (x / 2)) half, min_zero, e)
  where
    half : mask * 2 / 2 ≡ mask
    half = omega arith

    min_zero : min (x % 2) (mask * 2 % 2) ≡ 0
    min_zero = omega arith

and_0x02 : (x : ℕ) → x < 2 ^ 64 → bit_and x 0x02 ≡ x / 2 % 2 * 2
and_0x02 x h = and_above x 1 (x / 2 % 2) (bit_and_one (x / 2) (omega arith)) ∙ omega arith

and_0x04 : (x : ℕ) → x < 2 ^ 64 → bit_and x 0x04 ≡ x / 4 % 2 * 4
and_0x04 x h = and_above x 2 (x / 2 / 2 % 2 * 2) (and_0x02 (x / 2) (omega arith)) ∙ omega arith

and_0x08 : (x : ℕ) → x < 2 ^ 64 → bit_and x 0x08 ≡ x / 8 % 2 * 8
and_0x08 x h = and_above x 4 (x / 2 / 4 % 2 * 4) (and_0x04 (x / 2) (omega arith)) ∙ omega arith

and_0x10 : (x : ℕ) → x < 2 ^ 64 → bit_and x 0x10 ≡ x / 16 % 2 * 16
and_0x10 x h = and_above x 8 (x / 2 / 8 % 2 * 8) (and_0x08 (x / 2) (omega arith)) ∙ omega arith

and_0x20 : (x : ℕ) → x < 2 ^ 64 → bit_and x 0x20 ≡ x / 32 % 2 * 32
and_0x20 x h = and_above x 16 (x / 2 / 16 % 2 * 16) (and_0x10 (x / 2) (omega arith)) ∙ omega arith

and_0x40 : (x : ℕ) → x < 2 ^ 64 → bit_and x 0x40 ≡ x / 64 % 2 * 64
and_0x40 x h = and_above x 32 (x / 2 / 32 % 2 * 32) (and_0x20 (x / 2) (omega arith)) ∙ omega arith

-- The top bit of a byte.
pub bit_and_0x80 : (x : ℕ) → x < 256 → bit_and x 0x80 ≡ x / 128 * 128
bit_and_0x80 x h =
    and_above x 64 (x / 2 / 64 % 2 * 64) (and_0x40 (x / 2) (omega arith)) ∙ omega arith
