-- ===== src/ByteArray/Varint/Encode.antt =====
-- The bytes that the loops of `writeUInt32` and `writeUInt64` put down.
use native.Mathlib.Nat.{pow-suc}
use native.Mathlib.Decide.{dec_lt}
use east.Common.{
  ℕ, zero, suc, ◌+◌, ◌/◌, ◌%◌, ◌^◌, ◌≤◌, ◌<◌, ◌≡◌, ap, List, [], ◌∷◌, length, arith, ltb, le→leb,
  lt→leb-false, lt→ltb, le→ltb-false, if◌then◌else◌, ok, All,
}
use east.Common.Bits.{bit_and_0x7f, bit_or_0x80}
use east.ByteArray.Varint.{encode_loop}

-- The groups of seven bits of `v`, lowest first, each but the last with 128 added.
unfoldable pub varint : ℕ → ℕ → List ℕ
varint zero v = v ∷ []
varint (suc more) v =
    let rest = varint more (v / 128) in if ltb v 128 then v ∷ [] else (v % 128 + 128) ∷ rest

pub length-varint :
    (more v : ℕ) → (1 ≤ length (varint more v)) × (length (varint more v) ≤ suc more)
unfolding varint
length-varint zero v = (omega arith, omega arith)
length-varint (suc more) v = ground (arith, length-varint more (v / 128))

pub varint-AllBytes : (more v : ℕ) → v < 128 ^ suc more → All (λ x. x < 256) (varint more v)
unfolding varint
varint-AllBytes zero v h = (omega arith, tt)
varint-AllBytes (suc more) v h = elim (dec_lt v 128) [
  | yes p ↦ rw (lt→ltb v 128 p) (omega arith, tt)
  | no p ↦
      rw (le→ltb-false v 128 (omega arith))
        (omega arith, varint-AllBytes more (v / 128) (omega (arith, pow-suc 128 (suc more))))
]

-- A value of `7 * places` bits never needs a place that `buf` lacks.
pub encode_loop-varint :
    (more v : ℕ) → v < 128 ^ suc more → v < 2 ^ 64 → encode_loop (suc more) v ≡ ok (varint more v)
unfolding encode_loop varint
encode_loop-varint zero v h k =
    rw (lt→leb-false 0x80 v (omega arith), bit_and_0x7f v k) (ap (λ x. ok (x ∷ [])) (omega arith))
encode_loop-varint (suc more) v h k = elim (dec_lt v 128) [
  | yes p ↦
      rw (lt→leb-false 0x80 v p, lt→ltb v 128 p, bit_and_0x7f v k)
        (ap (λ x. ok (x ∷ [])) (omega arith))
  | no p ↦
      rw
        (
          le→leb 0x80 v (omega arith),
          le→ltb-false v 128 (omega arith),
          bit_and_0x7f v k,
          encode_loop-varint more (v / 128) (omega (arith, pow-suc 128 (suc more))) (omega arith),
          bit_or_0x80 (v % 128) (omega arith),
        )
        (ap (λ x. ok (x ∷ varint more (v / 128))) (omega arith))
]
