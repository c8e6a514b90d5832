-- ===== src/ByteArray/Ints/Fixed.antt =====
-- The integers of fixed width: what goes over the wire, and reading it back.
use east.Common.{
  ℕ, ◌+◌, ◌^◌, ◌≤◌, ◌<◌, ◌≡◌, refl, sym, ap, ◌∙◌, List, [], ◌∷◌, ◌++◌, length, arith, ok,
  if◌then◌else◌,
}
use east.ByteArray.{ByteArray, Endian, little_endian, big_endian, write, read}
use east.ByteArray.Valid.{IsValid}
use east.ByteArray.Tape
use east.ByteArray.Tape.{view, remaining}
use east.ByteArray.Refine.{Stores, write-Writes}
use east.ByteArray.Reading.{Yields, read-Yields, then-Yields}
use east.ByteArray.Writing.{write_back, write_back_lem}
use east.ByteArray.Ints.{to_memory, of_memory, same_order, byteswap, write_fix, read_fix, read_fix8}
use east.ByteArray.Ints.Bytes.{length-to_memory, to_memory_swapped, of_memory_swapped}

-- What a fixed integer puts into the array depends on the order that the array is set to, and not
-- on that of the host.
pub write_fix_lem :
    (host : Endian) (w val : ℕ) (b : ByteArray)
    → write_fix host w val b ≡ write (to_memory b.endian w val) b
unfolding write_fix
write_fix_lem host w val b = ap (λ l. write l b) (to_memory_swapped b.endian host w val)

pub read_fix-Yields :
    (host : Endian) (w val : ℕ) (b : ByteArray) (rest : List ℕ)
    → IsValid b
    → 1 ≤ w
    → val < 256 ^ w
    → remaining b ≡ to_memory b.endian w val ++ rest
    → Yields (read_fix host w) b val w rest
unfolding read_fix
read_fix-Yields host w val b rest v h k e =
    then-Yields (read w)
      (λ bytes b'.
        if same_order b'.endian host
        then of_memory host bytes
        else byteswap w (of_memory host bytes))
      b (to_memory b.endian w val) val w rest
      (read-Yields w b (to_memory b.endian w val) rest (length-to_memory b.endian w val) v h e)
      (λ cur. of_memory_swapped b.endian host w val k)

of_memory-byte : (host : Endian) (x : ℕ) → of_memory host (x ∷ []) ≡ x
unfolding of_memory
of_memory-byte little_endian x = omega arith
of_memory-byte big_endian x = omega arith

pub read_fix8-Yields :
    (host : Endian) (x : ℕ) (b : ByteArray) (rest : List ℕ)
    → IsValid b
    → remaining b ≡ x ∷ rest
    → Yields (read_fix8 host) b x 1 rest
unfolding read_fix8
read_fix8-Yields host x b rest v e =
    then-Yields (read 1) (λ bytes _. of_memory host bytes) b (x ∷ []) x 1 rest
      (read-Yields 1 b (x ∷ []) rest refl v (omega arith) e) (λ _. of_memory-byte host x)

pub write_fix-Stores :
    (host : Endian) (w val : ℕ) (b : ByteArray)
    → IsValid b
    → w ≤ 8
    → b.offset + w + b.block_size < 2 ^ 64
    → Stores (write_fix host w val) b (to_memory b.endian w val)
write_fix-Stores host w val b v h k = record {
  result = s.result;
  runs = write_fix_lem host w val b ∙ s.runs;
  valid = s.valid;
  tape = s.tape;
  same_block_size = s.same_block_size;
  same_endian = s.same_endian;
}
  where
    s : Stores (write (to_memory b.endian w val)) b (to_memory b.endian w val)
    s =
        write-Writes b v (to_memory b.endian w val) (omega (arith, length-to_memory b.endian w val))
          (omega (arith, length-to_memory b.endian w val))

-- A fixed integer that is written, gone back to and read again comes back, on a host of either
-- order and with the array set to either, and the array holds its bytes in the order that it is
-- set to, at the position, and nothing else has changed.
pub fix_round_trip :
    (host : Endian) (w val : ℕ) (b : ByteArray)
    → IsValid b
    → 1 ≤ w
    → w ≤ 8
    → val < 256 ^ w
    → b.offset + w + b.block_size < 2 ^ 64
    → write_back (write_fix host w val) (read_fix host w) b
      ≡ ok (val, Tape.write (to_memory b.endian w val) (view b))
fix_round_trip host w val b v h k small room =
    write_back_lem b v bytes (omega (arith, len)) (write_fix-Stores host w val b v k room)
      (read_fix host w) val w len
      λ s rest vs same e.
        read_fix-Yields host w val s rest vs h small
          (e ∙ ap (λ o. to_memory o w val ++ rest) (sym same))
  where
    bytes : List ℕ
    bytes = to_memory b.endian w val

    len : length bytes ≡ w
    len = length-to_memory b.endian w val
