-- ===== src/ByteArray/Varint.antt =====
-- ZigZag and the integers of variable length of East/src/ByteArray.cc. A signed value is its bit
-- pattern. `float` and `double` go through `memcpy` into the unsigned type of their size: the
-- argument is that bit pattern.
pub mod ZigZag
pub mod Encode
pub mod Decode
pub mod RoundTrip
use Prim.Native.Nat.{bit_and, bit_or, bit_xor}
use east.Common.{
  ℕ, zero, suc, ◌+◌, ◌-◌, ◌*◌, ◌/◌, ◌%◌, ◌^◌, Bool, true, false, List, [], ◌∷◌, if◌then◌else◌, leb,
  ◌==◌, Outcome, ok, throws, undefined, ◌>>=◌,
}
use east.ByteArray.{ByteArray, Endian, write}
use east.ByteArray.Ints.{read_fix8}

-- `(n << 1) ^ (n >> top)`: `top` is 31 or 63, the place of the sign bit, which `>>` spreads.
unfoldable pub encode_zigzag : ℕ → ℕ → ℕ
encode_zigzag top n = bit_xor (n * 2 % 2 ^ suc top) (if leb (2 ^ top) n then 2 ^ suc top - 1 else 0)

-- `(n >> 1) ^ -(n & 1)`
unfoldable pub decode_zigzag : ℕ → ℕ → ℕ
decode_zigzag top n = bit_xor (n / 2) ((2 ^ suc top - bit_and n 1) % 2 ^ suc top)

-- The loop that fills `buf`, with the places that are left in it. Past the last place it would
-- write behind the array.
unfoldable pub encode_loop : ℕ → ℕ → Outcome (List ℕ)
encode_loop zero val = throws undefined
encode_loop (suc places) val =
    let rest = encode_loop places (val / 128) in
    if leb 0x80 val
    then (do bytes ← rest; ok ((bit_or (bit_and val 0x7f) 0x80 % 256) ∷ bytes))
    else ok ((bit_and val 0x7f % 256) ∷ [])

unfoldable pub write_uint32 : ℕ → ByteArray → Outcome ByteArray
write_uint32 val b = do bytes ← encode_loop 5 val; write bytes b

unfoldable pub write_uint64 : ℕ → ByteArray → Outcome ByteArray
write_uint64 val b = do bytes ← encode_loop 10 val; write bytes b

unfoldable pub write_int32 : ℕ → ByteArray → Outcome ByteArray
write_int32 val b = write_uint32 (encode_zigzag 31 val) b

unfoldable pub write_int64 : ℕ → ByteArray → Outcome ByteArray
write_int64 val b = write_uint64 (encode_zigzag 63 val) b

unfoldable pub write_float : ℕ → ByteArray → Outcome ByteArray
write_float val b = write_uint32 val b

unfoldable pub write_double : ℕ → ByteArray → Outcome ByteArray
write_double val b = write_uint64 val b

module _ (host : Endian) where
  -- `for (i = 0; i < bits; i += 7)`, with the rounds that are left: 5 for 32 bits, 10 for 64.
  unfoldable pub decode_loop : ℕ → ℕ → ℕ → ℕ → ByteArray → Outcome (ℕ × ByteArray)
  decode_loop zero bits i res b = ok (res, b)
  decode_loop (suc rounds) bits i res b = do
    (byte, b') ← read_fix8 host b
    elim (bit_and byte 0x80 == 0x80) [
      | true ↦
          decode_loop rounds bits (i + 7) (bit_or res (bit_and byte 0x7f * 2 ^ i % 2 ^ bits)) b'
      | false ↦ ok (bit_or res (byte * 2 ^ i % 2 ^ bits), b')
    ]

  unfoldable pub read_uint32 : ByteArray → Outcome (ℕ × ByteArray)
  read_uint32 b = decode_loop 5 32 0 0 b

  unfoldable pub read_uint64 : ByteArray → Outcome (ℕ × ByteArray)
  read_uint64 b = decode_loop 10 64 0 0 b

  unfoldable pub read_int32 : ByteArray → Outcome (ℕ × ByteArray)
  read_int32 b = do (val, b') ← read_uint32 b; ok (decode_zigzag 31 val, b')

  unfoldable pub read_int64 : ByteArray → Outcome (ℕ × ByteArray)
  read_int64 b = do (val, b') ← read_uint64 b; ok (decode_zigzag 63 val, b')

  unfoldable pub read_float : ByteArray → Outcome (ℕ × ByteArray)
  read_float b = read_uint32 b

  unfoldable pub read_double : ByteArray → Outcome (ℕ × ByteArray)
  read_double b = read_uint64 b
