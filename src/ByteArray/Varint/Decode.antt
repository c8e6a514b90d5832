-- ===== src/ByteArray/Varint/Decode.antt =====
-- Reading an integer of variable length back.
use Prim.Native.Nat.{bit_and, bit_or}
use mathlib.Core.Path.{subst}
use native.Mathlib.Nat.{mul-le-mul_right, div-add-mod, pow-suc, mod-eq_of_lt}
use native.Mathlib.Numerals.{towards_suc}
use native.Mathlib.Decide.{dec_lt}
use east.Common.{
  ℕ, zero, suc, ◌+◌, ◌*◌, ◌/◌, ◌%◌, ◌^◌, ◌≤◌, ◌<◌, ◌≡◌, refl, sym, ap, ◌∙◌, List, [], ◌∷◌, ◌++◌,
  length, drop, arith, lt→ltb, le→ltb-false, ok, ◌==◌, true, false, Bool, Outcome,
}
use east.Common.Bits.{bit_and_0x7f, bit_and_0x80, bit_or_add}
use east.ByteArray.{ByteArray, Endian}
use east.ByteArray.Valid.{IsValid}
use east.ByteArray.Tape.{remaining, contents}
use east.ByteArray.Refine.{moved_to}
use east.ByteArray.Reading.{Yields}
use east.ByteArray.Ints.{read_fix8}
use east.ByteArray.Ints.Fixed.{read_fix8-Yields}
use east.ByteArray.Varint.{decode_loop}
use east.ByteArray.Varint.Encode.{varint}

-- `res |= x << i` where nothing of `res` lies from bit `i` on and the sum fits.
or_shift :
    (bits i res x : ℕ)
    → res < 2 ^ i
    → res + x * 2 ^ i < 2 ^ bits
    → bit_or res (x * 2 ^ i % 2 ^ bits) ≡ res + x * 2 ^ i
or_shift bits i res x h fits = ap (bit_or res) (mod-eq_of_lt (omega arith)) ∙ bit_or_add i res x h

shift_seven : (i : ℕ) → 2 ^ (i + 7) ≡ 128 * 2 ^ i
shift_seven i = simp towards_suc (omega arith)

-- The last byte of a value, and a byte with more behind it.
module _ (host : Endian) (rounds bits i res x : ℕ) (b : ByteArray) (rest : List ℕ) (v : IsValid b)
    (h : res < 2 ^ i) (e : remaining b ≡ x ∷ rest) where
  byte : Yields (read_fix8 host) b x 1 rest
  byte = read_fix8-Yields host x b rest v e

  -- The rest of a round, once the byte is there and its top bit has been looked at.
  abbrev round : Bool → Outcome (ℕ × ByteArray)
  round more = elim more [
    | true ↦
        decode_loop host rounds bits (i + 7) (bit_or res (bit_and x 0x7f * 2 ^ i % 2 ^ bits))
          (moved_to b byte.cur (b.offset + 1))
    | false ↦ ok (bit_or res (x * 2 ^ i % 2 ^ bits), moved_to b byte.cur (b.offset + 1))
  ]

  last_byte :
      x < 128
      → res + x * 2 ^ i < 2 ^ bits
      → Yields (decode_loop host (suc rounds) bits i res) b (res + x * 2 ^ i) 1 rest
  unfolding decode_loop
  last_byte small fits = record {
    cur = byte.cur;
    runs = rw byte.runs step;
    valid = byte.valid;
    left = byte.left;
  }
    where
      top : (bit_and x 0x80 == 0x80) ≡ false
      top = ground (arith, bit_and_0x80 x (omega arith))

      step :
          round (bit_and x 0x80 == 0x80) ≡ ok (res + x * 2 ^ i, moved_to b byte.cur (b.offset + 1))
      step =
          rw top
            (ap (λ y. ok (y, moved_to b byte.cur (b.offset + 1))) (or_shift bits i res x h fits))

  -- After a byte `128 + x` the loop goes on with the group `x` taken in.
  inner_byte :
      (g n : ℕ) (y : ℕ) (more : List ℕ)
      → x ≡ g + 128
      → g < 128
      → res + g * 2 ^ i < 2 ^ bits
      → Yields
          (decode_loop host rounds bits (i + 7) (res + g * 2 ^ i))
          (moved_to b byte.cur (b.offset + 1))
          y
          n
          more
      → Yields (decode_loop host (suc rounds) bits i res) b y (suc n) more
  unfolding decode_loop
  inner_byte g n y more xe small fits next = record {
    cur = next.cur;
    runs = rw byte.runs step;
    valid = subst (λ o. IsValid (moved_to b next.cur o)) further next.valid;
    left = ap (λ o. drop o (contents b)) (sym further) ∙ next.left;
  }
    where
      top : (bit_and x 0x80 == 0x80) ≡ true
      top = ground (arith, bit_and_0x80 x (omega arith))

      low : bit_and x 0x7f ≡ g
      low = omega (arith, bit_and_0x7f x (omega arith))

      further : b.offset + 1 + n ≡ b.offset + suc n
      further = omega arith

      step : round (bit_and x 0x80 == 0x80) ≡ ok (y, moved_to b next.cur (b.offset + suc n))
      step =
          rw (top, low, or_shift bits i res g h fits)
            (next.runs ∙ ap (λ o. ok (y, moved_to b next.cur o)) further)

-- The value times the weight of its lowest bit, split behind the lowest group.
split_group : (v i : ℕ) → v * 2 ^ i ≡ v % 128 * 2 ^ i + v / 128 * 2 ^ (i + 7)
split_group v i = omega (
  arith,
  ap (λ (t : ℕ). t * 2 ^ i) (div-add-mod v 128),
  ap (λ (t : ℕ). v / 128 * t) (shift_seven i),
)

-- The loop reads the groups of `v` that lie in front, on top of what it has from below bit `i`.
pub decode_loop-varint :
    (host : Endian) (bits more rounds v i res : ℕ) (b : ByteArray) (rest : List ℕ)
    → IsValid b
    → more < rounds
    → v < 128 ^ suc more
    → res < 2 ^ i
    → res + v * 2 ^ i < 2 ^ bits
    → remaining b ≡ varint more v ++ rest
    → Yields (decode_loop host rounds bits i res) b (res + v * 2 ^ i) (length (varint more v)) rest
unfolding varint
decode_loop-varint host bits zero (suc rounds) v i res b rest valid m h r fits e =
    last_byte host rounds bits i res v b rest valid r e (omega arith) fits
decode_loop-varint host bits more zero v i res b rest valid m h r fits e = absurd (omega arith)
decode_loop-varint host bits (suc more) (suc rounds) v i res b rest valid m h r fits e =
    elim (dec_lt v 128) [
      | yes p ↦
          subst
            (λ bytes.
              Yields (decode_loop host (suc rounds) bits i res) b (res + v * 2 ^ i) (length bytes)
                rest)
            (sym (short p))
            (last_byte host rounds bits i res v b rest valid r (e ∙ ap (λ l. l ++ rest) (short p)) p
              fits)
      | no p ↦
          subst
            (λ bytes.
              Yields (decode_loop host (suc rounds) bits i res) b (res + v * 2 ^ i) (length bytes)
                rest)
            (sym (long p))
            (more_bytes p (
              decode_loop-varint host bits more rounds (v / 128) (i + 7) (res + v % 128 * 2 ^ i)
                (moved_to b (first p).cur (b.offset + 1)) rest (first p).valid (omega arith)
                (omega (arith, pow-suc 128 (suc more))) (omega (arith, shift_seven i, low_part))
                (omega (arith, split_group v i)) (first p).left))
    ]
  where
    short : v < 128 → varint (suc more) v ≡ v ∷ []
    short p = rw (lt→ltb v 128 p)

    long : ¬ (v < 128) → varint (suc more) v ≡ (v % 128 + 128) ∷ varint more (v / 128)
    long p = rw (le→ltb-false v 128 (omega arith))

    low_part : v % 128 * 2 ^ i + 2 ^ i ≤ 128 * 2 ^ i
    low_part = omega (arith, mul-le-mul_right {m = v % 128 + 1} {n = 128} (2 ^ i) (omega arith))

    front : ¬ (v < 128) → remaining b ≡ (v % 128 + 128) ∷ (varint more (v / 128) ++ rest)
    front p = e ∙ ap (λ l. l ++ rest) (long p)

    first :
        ¬ (v < 128) → Yields (read_fix8 host) b (v % 128 + 128) 1 (varint more (v / 128) ++ rest)
    first p =
        byte host rounds bits i res (v % 128 + 128) b (varint more (v / 128) ++ rest) valid r
          (front p)

    same_value : res + v % 128 * 2 ^ i + v / 128 * 2 ^ (i + 7) ≡ res + v * 2 ^ i
    same_value = omega (arith, split_group v i)

    more_bytes :
        (p : ¬ (v < 128))
        → Yields
            (decode_loop host rounds bits (i + 7) (res + v % 128 * 2 ^ i))
            (moved_to b (first p).cur (b.offset + 1))
            (res + v % 128 * 2 ^ i + v / 128 * 2 ^ (i + 7))
            (length (varint more (v / 128)))
            rest
        → Yields
            (decode_loop host (suc rounds) bits i res)
            b
            (res + v * 2 ^ i)
            (suc (length (varint more (v / 128))))
            rest
    more_bytes p next =
        inner_byte host rounds bits i res (v % 128 + 128) b (varint more (v / 128) ++ rest) valid r
          (front p) (v % 128) (length (varint more (v / 128))) (res + v * 2 ^ i) rest refl
          (omega arith) (omega (arith, split_group v i))
          (subst
            (λ y.
              Yields (decode_loop host rounds bits (i + 7) (res + v % 128 * 2 ^ i))
                (moved_to b (first p).cur (b.offset + 1)) y (length (varint more (v / 128))) rest)
            same_value next)
