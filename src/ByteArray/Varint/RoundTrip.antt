-- ===== src/ByteArray/Varint/RoundTrip.antt =====
-- Integers of variable length, written and read back.
use mathlib.Core.Path.{subst}
use east.Common.{◌++◌, ℕ, suc, ◌+◌, ◌*◌, ◌^◌, ◌<◌, ◌≡◌, refl, List, length, arith, ok, ◌>>=◌}
use east.ByteArray.{ByteArray, Endian, write}
use east.ByteArray.Valid.{IsValid}
use east.ByteArray.Tape
use east.ByteArray.Tape.{view, remaining}
use east.ByteArray.Refine.{Stores, write-Writes}
use east.ByteArray.Reading.{Yields, then-Yields}
use east.ByteArray.Writing.{write_back, write_back_lem}
use east.ByteArray.Varint.{
  encode_loop, decode_loop, encode_zigzag, decode_zigzag, write_uint32, write_uint64, write_int32,
  write_int64, read_uint32, read_uint64, read_int32, read_int64,
}
use east.ByteArray.Varint.Encode.{varint, length-varint, encode_loop-varint}
use east.ByteArray.Varint.Decode.{decode_loop-varint}
use east.ByteArray.Varint.ZigZag.{encode_zigzag-lt, decode-encode_zigzag}

-- Room for `n` more bytes before a position wraps.
abbrev pub HasRoom : ByteArray → ℕ → Type 0
HasRoom b n = b.offset + n + b.block_size < 2 ^ 64

module _ (b : ByteArray) (valid : IsValid b) (v : ℕ) where
  encoded-Stores :
      (more : ℕ)
      → v < 128 ^ suc more
      → v < 2 ^ 64
      → more < 10
      → HasRoom b 10
      → Stores (λ s. encode_loop (suc more) v >>= λ bytes. write bytes s) b (varint more v)
  encoded-Stores more h k m room = record {
    result = s.result;
    runs = rw (encode_loop-varint more v h k) s.runs;
    valid = s.valid;
    tape = s.tape;
    same_block_size = s.same_block_size;
    same_endian = s.same_endian;
  }
    where
      s : Stores (write (varint more v)) b (varint more v)
      s =
          write-Writes b valid (varint more v) (omega (arith, length-varint more v))
            (omega (arith, length-varint more v))

  pub write_uint32-Stores : v < 2 ^ 32 → HasRoom b 10 → Stores (write_uint32 v) b (varint 4 v)
  unfolding write_uint32
  write_uint32-Stores h room = encoded-Stores 4 (omega arith) (omega arith) (omega arith) room

  pub write_uint64-Stores : v < 2 ^ 64 → HasRoom b 10 → Stores (write_uint64 v) b (varint 9 v)
  unfolding write_uint64
  write_uint64-Stores h room = encoded-Stores 9 (omega arith) h (omega arith) room

module _ (host : Endian) (v : ℕ) (s : ByteArray) (rest : List ℕ) (valid : IsValid s) where
  decoded-Yields :
      (bits more : ℕ)
      → v < 128 ^ suc more
      → v < 2 ^ bits
      → remaining s ≡ varint more v ++ rest
      → Yields (decode_loop host (suc more) bits 0 0) s v (length (varint more v)) rest
  decoded-Yields bits more h k e =
      subst (λ x. Yields (decode_loop host (suc more) bits 0 0) s x (length (varint more v)) rest)
        {x = 0 + v * 2 ^ 0} (omega arith)
        (decode_loop-varint host bits more (suc more) v 0 0 s rest valid (omega arith) h
          (omega arith) (omega arith) e)

  pub read_uint32-Yields :
      v < 2 ^ 32
      → remaining s ≡ varint 4 v ++ rest
      → Yields (read_uint32 host) s v (length (varint 4 v)) rest
  unfolding read_uint32
  read_uint32-Yields h e = decoded-Yields 32 4 (omega arith) h e

  pub read_uint64-Yields :
      v < 2 ^ 64
      → remaining s ≡ varint 9 v ++ rest
      → Yields (read_uint64 host) s v (length (varint 9 v)) rest
  unfolding read_uint64
  read_uint64-Yields h e = decoded-Yields 64 9 (omega arith) h e

  pub read_int64-Yields :
      v < 2 ^ 64
      → remaining s ≡ varint 9 v ++ rest
      → Yields (read_int64 host) s (decode_zigzag 63 v) (length (varint 9 v)) rest
  unfolding read_int64
  read_int64-Yields h e =
      then-Yields (read_uint64 host) (λ x _. decode_zigzag 63 x) s v (decode_zigzag 63 v) _ rest
        (read_uint64-Yields h e) (λ _. refl)

  pub read_int32-Yields :
      v < 2 ^ 32
      → remaining s ≡ varint 4 v ++ rest
      → Yields (read_int32 host) s (decode_zigzag 31 v) (length (varint 4 v)) rest
  unfolding read_int32
  read_int32-Yields h e =
      then-Yields (read_uint32 host) (λ x _. decode_zigzag 31 x) s v (decode_zigzag 31 v) _ rest
        (read_uint32-Yields h e) (λ _. refl)

-- With room for 10 bytes in a well-formed array, a 32-bit value of variable length that is written, gone back to
-- and read comes back, unsigned and signed (as its bit pattern), and the array holds its groups of seven bits, of the value or of
-- its ZigZag code.
pub varint32_round_trip :
    (host : Endian) (v : ℕ) (b : ByteArray)
    → IsValid b
    → v < 2 ^ 32
    → HasRoom b 10
    → (write_back (write_uint32 v) (read_uint32 host) b ≡ ok (v, Tape.write (varint 4 v) (view b)))
      × (write_back (write_int32 v) (read_int32 host) b
          ≡ ok (v, Tape.write (varint 4 (encode_zigzag 31 v)) (view b)))
unfolding write_int32
varint32_round_trip host v b valid h room = (
  write_back_lem b valid (varint 4 v) (length-varint 4 v).0 (write_uint32-Stores b valid v h room)
      (read_uint32 host) v _ refl (λ s rest vs _ e. read_uint32-Yields host v s rest vs h e),
  write_back_lem b valid (varint 4 z) (length-varint 4 z).0
      (write_uint32-Stores b valid z z_lt room) (read_int32 host) v _ refl
      (λ s rest vs _ e.
        subst (λ x. Yields (read_int32 host) s x (length (varint 4 z)) rest)
          (decode-encode_zigzag 31 (omega arith) v h) (read_int32-Yields host z s rest vs z_lt e)),
)
  where
    z : ℕ
    z = encode_zigzag 31 v

    z_lt : z < 2 ^ 32
    z_lt = encode_zigzag-lt 31 (omega arith) v h

-- With room for 10 bytes in a well-formed array, a 64-bit value of variable length that is written, gone back to
-- and read comes back, unsigned and signed (as its bit pattern), and the array holds its groups of
-- seven bits, of the value or of its ZigZag code.
pub varint64_round_trip :
    (host : Endian) (v : ℕ) (b : ByteArray)
    → IsValid b
    → v < 2 ^ 64
    → HasRoom b 10
    → (write_back (write_uint64 v) (read_uint64 host) b ≡ ok (v, Tape.write (varint 9 v) (view b)))
      × (write_back (write_int64 v) (read_int64 host) b
          ≡ ok (v, Tape.write (varint 9 (encode_zigzag 63 v)) (view b)))
unfolding write_int64
varint64_round_trip host v b valid h room = (
  write_back_lem b valid (varint 9 v) (length-varint 9 v).0 (write_uint64-Stores b valid v h room)
      (read_uint64 host) v _ refl (λ s rest vs _ e. read_uint64-Yields host v s rest vs h e),
  write_back_lem b valid (varint 9 z) (length-varint 9 z).0
      (write_uint64-Stores b valid z z_lt room) (read_int64 host) v _ refl
      (λ s rest vs _ e.
        subst (λ x. Yields (read_int64 host) s x (length (varint 9 z)) rest)
          (decode-encode_zigzag 63 (omega arith) v h) (read_int64-Yields host z s rest vs z_lt e)),
)
  where
    z : ℕ
    z = encode_zigzag 63 v

    z_lt : z < 2 ^ 64
    z_lt = encode_zigzag-lt 63 (omega arith) v h
