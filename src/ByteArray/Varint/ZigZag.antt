-- ===== src/ByteArray/Varint/ZigZag.antt =====
-- ZigZag is a bijection of the words of 32 and of 64 bits.
use native.Mathlib.Nat.{
  two-pow-succ, one-le-pow, pow-le-pow_right, mod-eq_of_lt, mod-eq-sub-mod, mod_self,
}
use native.Mathlib.Decide.{dec_lt, ℕ_discrete}
use east.Common.{
  ℕ, suc, ◌+◌, ◌-◌, ◌*◌, ◌/◌, ◌%◌, ◌^◌, ◌≤◌, ◌<◌, ◌≡◌, ap, ◌∙◌, arith, leb, le→leb, lt→leb-false,
  if◌then◌else◌,
}
use east.Common.Bits.{bit_xor_zero, bit_xor_ones, bit_and_one}
use east.ByteArray.Varint.{encode_zigzag, decode_zigzag}

module _ (top : ℕ) (top_lt : top < 64) where
  half : 2 ^ suc top ≡ 2 ^ top + 2 ^ top
  half = two-pow-succ top

  pos : 1 ≤ 2 ^ top
  pos = one-le-pow top 2 (omega arith)

  word : 2 ^ suc top ≤ 2 ^ 64
  word = pow-le-pow_right {n = 2} (omega arith) {i = suc top} {j = 64} (omega arith)

  -- A number that is not negative is doubled; one below 0 is `n - 2 ^ (top + 1)`, and goes to the
  -- odd number before the double of its distance from 0.
  pub encode_zigzag_nonneg : (n : ℕ) → n < 2 ^ top → encode_zigzag top n ≡ 2 * n
  unfolding encode_zigzag
  encode_zigzag_nonneg n h =
      rw (lt→leb-false (2 ^ top) n h, doubled)
        (bit_xor_zero (suc top) (n * 2) (omega (arith, half)) ∙ omega arith)
    where
      doubled : n * 2 % 2 ^ suc top ≡ n * 2
      doubled = mod-eq_of_lt (omega (arith, half))

  pub encode_zigzag_neg :
      (n : ℕ) → 2 ^ top ≤ n → n < 2 ^ suc top → encode_zigzag top n ≡ 2 * (2 ^ suc top - n) - 1
  unfolding encode_zigzag
  encode_zigzag_neg n h k =
      rw (le→leb (2 ^ top) n h, doubled)
        (bit_xor_ones (suc top) (n * 2 - 2 ^ suc top) (omega (arith, half)) ∙ omega (arith, half))
    where
      doubled : n * 2 % 2 ^ suc top ≡ n * 2 - 2 ^ suc top
      doubled =
          mod-eq-sub-mod {n = n * 2} {m = 2 ^ suc top} (omega (arith, half))
          ∙ mod-eq_of_lt (omega (arith, half))

  pub decode_zigzag_even : (m : ℕ) → m < 2 ^ suc top → m % 2 ≡ 0 → decode_zigzag top m ≡ m / 2
  unfolding decode_zigzag
  decode_zigzag_even m h e =
      rw (bit_and_one m (omega (arith, word)), e, none_set)
        (bit_xor_zero (suc top) (m / 2) (omega arith))
    where
      none_set : (2 ^ suc top - 0) % 2 ^ suc top ≡ 0
      none_set = ap (λ (x : ℕ). x % 2 ^ suc top) (omega arith) ∙ mod_self (2 ^ suc top)

  pub decode_zigzag_odd :
      (m : ℕ) → m < 2 ^ suc top → m % 2 ≡ 1 → decode_zigzag top m ≡ 2 ^ suc top - 1 - m / 2
  unfolding decode_zigzag
  decode_zigzag_odd m h e =
      rw (bit_and_one m (omega (arith, word)), e, all_set)
        (bit_xor_ones (suc top) (m / 2) (omega arith))
    where
      all_set : (2 ^ suc top - 1) % 2 ^ suc top ≡ 2 ^ suc top - 1
      all_set = mod-eq_of_lt (omega (arith, half, pos))

  pub encode_zigzag-lt : (n : ℕ) → n < 2 ^ suc top → encode_zigzag top n < 2 ^ suc top
  encode_zigzag-lt n h = elim (dec_lt n (2 ^ top)) [
    | yes p ↦ omega (arith, half, encode_zigzag_nonneg n p)
    | no p ↦ omega (arith, half, encode_zigzag_neg n (omega arith) h)
  ]

  pub decode-encode_zigzag : (n : ℕ) → n < 2 ^ suc top → decode_zigzag top (encode_zigzag top n) ≡ n
  decode-encode_zigzag n h = elim (dec_lt n (2 ^ top)) [
    | yes p ↦
        rw (encode_zigzag_nonneg n p)
          (decode_zigzag_even (2 * n) (omega (arith, half)) (omega arith) ∙ omega arith)
    | no p ↦ rw (encode_zigzag_neg n (omega arith) h) (
        decode_zigzag_odd (2 * (2 ^ suc top - n) - 1) (omega (arith, half)) (omega arith)
        ∙ omega (arith, half))
  ]

  pub encode-decode_zigzag : (m : ℕ) → m < 2 ^ suc top → encode_zigzag top (decode_zigzag top m) ≡ m
  encode-decode_zigzag m h = elim (ℕ_discrete (m % 2) 0) [
    | yes p ↦
        rw (decode_zigzag_even m h p)
          (encode_zigzag_nonneg (m / 2) (omega (arith, half)) ∙ omega arith)
    | no p ↦ rw (decode_zigzag_odd m h (omega arith)) (
        encode_zigzag_neg (2 ^ suc top - 1 - m / 2) (omega (arith, half)) (omega (arith, half, pos))
        ∙ omega (arith, half))
  ]

-- For 32 and for 64 bits: decoding undoes encoding and encoding undoes decoding, a number that is
-- not negative is doubled, and -k goes to 2 * k - 1.
pub zigzag_bijection :
    (top n : ℕ)
    → top < 64
    → n < 2 ^ suc top
    → (decode_zigzag top (encode_zigzag top n) ≡ n)
      × (encode_zigzag top (decode_zigzag top n) ≡ n)
      × (encode_zigzag top n ≡ (if leb (2 ^ top) n then 2 * (2 ^ suc top - n) - 1 else 2 * n))
zigzag_bijection top n t h = (
  decode-encode_zigzag top t n h,
  encode-decode_zigzag top t n h,
  elim (dec_lt n (2 ^ top)) [
    | yes nonneg ↦ rw (lt→leb-false (2 ^ top) n nonneg) (encode_zigzag_nonneg top t n nonneg)
    | no neg ↦ rw (le→leb (2 ^ top) n (omega arith)) (encode_zigzag_neg top t n (omega arith) h)
  ],
)
