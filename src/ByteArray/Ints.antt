-- ===== src/ByteArray/Ints.antt =====
-- The integer and string members of East/src/ByteArray.cc, and East/include/Endian.h. An integer
-- is its bit pattern, a number below 2 ^ (8 * width); `width` is `sizeof`. A member for a signed
-- type does what that for the unsigned type of its size does.
pub mod Bytes
pub mod Fixed
use Prim.Native.Nat.{bit_and, bit_or, bit_xor}
use mathlib.Core.List.{reverse}
use east.Common.{
  ℕ, zero, suc, ◌+◌, ◌-◌, ◌*◌, ◌/◌, ◌%◌, ◌^◌, ◌≡◌, Bool, true, false, List, [], ◌∷◌, ◌++◌, length,
  if◌then◌else◌, ltb, leb, ◌==◌, Outcome, ok, throws, length_error, ◌>>=◌,
}
use east.ByteArray.{ByteArray, Endian, little_endian, big_endian, write, read}

-- The bytes of a value, lowest first, and back.
unfoldable pub to_bytes_le : ℕ → ℕ → List ℕ
to_bytes_le zero x = []
to_bytes_le (suc width) x = (x % 256) ∷ to_bytes_le width (x / 256)

unfoldable pub of_bytes_le : List ℕ → ℕ
of_bytes_le [] = 0
of_bytes_le (b ∷ bs) = b + 256 * of_bytes_le bs

-- How a value lies in the memory of a host, which `memcpy` copies.
unfoldable pub to_memory : Endian → ℕ → ℕ → List ℕ
unfolding to_bytes_le
to_memory little_endian width x = to_bytes_le width x
to_memory big_endian width x = reverse (to_bytes_le width x)

unfoldable pub of_memory : Endian → List ℕ → ℕ
unfolding of_bytes_le
of_memory little_endian bytes = of_bytes_le bytes
of_memory big_endian bytes = of_bytes_le (reverse bytes)

-- `__builtin_bswap16`, `32` and `64`: the bytes in the other order.
unfoldable pub byteswap : ℕ → ℕ → ℕ
unfolding to_bytes_le of_bytes_le
byteswap width x = of_bytes_le (reverse (to_bytes_le width x))

abbrev pub same_order : Endian → Endian → Bool
same_order little_endian little_endian = true
same_order big_endian big_endian = true
same_order _ _ = false

-- `host` is EAST_BYTE_ORDER, which the build takes from the machine.
module _ (host : Endian) where
  -- writeFixInt16 to writeFixUInt64, and writeFixInt8 and writeFixUInt8, where no byte moves.
  unfoldable pub write_fix : ℕ → ℕ → ByteArray → Outcome ByteArray
  write_fix width val b =
      let val' = if same_order b.endian host then val else byteswap width val in
      write (to_memory host width val') b

  unfoldable pub write_fix8 : ℕ → ByteArray → Outcome ByteArray
  write_fix8 val b = write (to_memory host 1 val) b

  unfoldable pub read_fix : ℕ → ByteArray → Outcome (ℕ × ByteArray)
  read_fix width b = do
    (bytes, b') ← read width b
    let tmp = of_memory host bytes
    ok (if same_order b'.endian host then tmp else byteswap width tmp, b')

  unfoldable pub read_fix8 : ByteArray → Outcome (ℕ × ByteArray)
  read_fix8 b = do (bytes, b') ← read 1 b; ok (of_memory host bytes, b')
