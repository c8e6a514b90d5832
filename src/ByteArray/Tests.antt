-- ===== src/ByteArray/Tests.antt =====
-- Runs of the members of East/src/ByteArray.cc on an array of two blocks, and the theorems on it.
use east.Common.{
  ℕ, ◌≡◌, refl, List, [], ◌∷◌, ◌++◌, arith, ok, throws, out_of_range, undefined, true, false, take,
  ◌⊎◌, ◌<◌,
}
use east.Common.Words.{add64, sub64}
use east.ByteArray.{
  ByteArray, big_endian, little_endian, write, read, set_offset, write_loop, add_capacity,
  get_writeable_capacity, in_block, is_little_endian, set_little_endian,
}
use east.ByteArray.Valid.{IsValid}
use east.ByteArray.Tape
use east.ByteArray.Tape.{Tape, view, contents, remaining}
use east.ByteArray.Writing.{viewed, write_back}
use east.ByteArray.Contract.{
  write_refines, read_refines, set_offset_cases, call-IsValid, LeavesValid, writes, call,
}
use east.ByteArray.Ints.{to_memory, write_fix, read_fix}
use east.ByteArray.Ints.Fixed.{fix_round_trip, write_fix_lem}
use east.ByteArray.Varint.{encode_zigzag, write_uint64, read_uint64, write_int64, read_int64}
use east.ByteArray.Varint.Encode.{varint}
use east.ByteArray.Varint.RoundTrip.{varint64_round_trip}
use east.ByteArray.Strings.{write_string_fix, read_string_fix}
use east.ByteArray.Strings.RoundTrip.{string_fix_round_trip}
use east.ByteArray.Buffers.{Iovec, get_readable_buffers, read_from_file}
use east.ByteArray.Buffers.Gather.{gather, readable_buffers-gather}
use east.ByteArray.Buffers.Files.{read_from_file_lem}

-- Two blocks of four bytes, the position on the second, one byte left to read.
abbrev two_blocks : ByteArray
two_blocks = record {
  block_size = 4;
  offset = 6;
  size = 7;
  capacity = 8;
  endian = big_endian;
  nodes = (1 ∷ 2 ∷ 3 ∷ 4 ∷ []) ∷ (5 ∷ 6 ∷ 7 ∷ 8 ∷ []) ∷ [];
  cur = 1;
}

two_blocks-IsValid : IsValid two_blocks
two_blocks-IsValid = record {
  nonzero = omega arith;
  uniform = (refl, (refl, tt));
  exact = refl;
  rooted = omega arith;
  from_cur = omega arith;
  before_next = omega arith;
  offset_le = omega arith;
  size_le = omega arith;
  fits = omega arith;
}

write_refines_example :
    (result : ByteArray) × (write (9 ∷ 10 ∷ 11 ∷ []) two_blocks ≡ ok result)
    × IsValid result
    × (view result ≡ Tape.write (9 ∷ 10 ∷ 11 ∷ []) (view two_blocks))
write_refines_example =
    write_refines two_blocks (9 ∷ 10 ∷ 11 ∷ []) two_blocks-IsValid (omega arith) (omega arith)

read_refines_example :
    (viewed (read 2 two_blocks) ≡ Tape.read 2 (view two_blocks)) × LeavesValid (read 2 two_blocks)
read_refines_example = read_refines two_blocks 2 two_blocks-IsValid (omega arith)

set_offset_cases_example :
    ((3 < 8)
      × ((result : ByteArray) × (set_offset 3 two_blocks ≡ ok result)
          × IsValid result
          × (result.offset ≡ 3)
          × (result.size ≡ 7)
          × (result.nodes ≡ two_blocks.nodes)))
    ⊎ ((◌≡◌ {A = ℕ} 3 8) × (set_offset 3 two_blocks ≡ throws undefined))
    ⊎ ((8 < 3) × (set_offset 3 two_blocks ≡ throws out_of_range))
set_offset_cases_example = set_offset_cases two_blocks 3 two_blocks-IsValid

moved : ByteArray
moved = record two_blocks { offset = 7; nodes = (1 ∷ 2 ∷ 3 ∷ 4 ∷ []) ∷ (5 ∷ 6 ∷ 9 ∷ 8 ∷ []) ∷ [] }

write_run : call (writes (9 ∷ [])) two_blocks ≡ ok moved
unfolding moved write write_loop add_capacity get_writeable_capacity in_block sub64 add64
write_run = refl

call-IsValid_example : IsValid moved
call-IsValid_example =
    call-IsValid (writes (9 ∷ [])) two_blocks two_blocks-IsValid (omega arith, omega arith)
      write_run

-- `isLittleEndian` answers true when the order is big endian.
is_little_endian_run : is_little_endian (set_little_endian false two_blocks) ≡ true
unfolding is_little_endian set_little_endian
is_little_endian_run = refl

write_fix_lem_example :
    write_fix little_endian 4 258 two_blocks ≡ write (to_memory big_endian 4 258) two_blocks
write_fix_lem_example = write_fix_lem little_endian 4 258 two_blocks

fix_round_trip_example :
    write_back (write_fix little_endian 4 258) (read_fix little_endian 4) two_blocks
    ≡ ok (258, Tape.write (to_memory big_endian 4 258) (view two_blocks))
fix_round_trip_example =
    fix_round_trip little_endian 4 258 two_blocks two_blocks-IsValid (omega arith) (omega arith)
      (omega arith) (omega arith)

varint64_round_trip_example :
    (write_back (write_uint64 300) (read_uint64 little_endian) two_blocks
      ≡ ok (300, Tape.write (varint 9 300) (view two_blocks)))
    × (write_back (write_int64 300) (read_int64 little_endian) two_blocks
        ≡ ok (300, Tape.write (varint 9 (encode_zigzag 63 300)) (view two_blocks)))
varint64_round_trip_example =
    varint64_round_trip little_endian 300 two_blocks two_blocks-IsValid (omega arith) (omega arith)

string_fix_round_trip_example :
    write_back
      (write_string_fix little_endian 2 (104 ∷ 105 ∷ []))
      (read_string_fix 1000 little_endian 2)
      two_blocks
    ≡ ok (
      104 ∷ 105 ∷ [],
      Tape.write (to_memory big_endian 2 2 ++ (104 ∷ 105 ∷ [])) (view two_blocks),
    )
string_fix_round_trip_example =
    string_fix_round_trip 1000 little_endian 2 (104 ∷ 105 ∷ []) two_blocks two_blocks-IsValid
      (omega arith) (omega arith) (omega arith) (omega arith) (omega arith) (omega arith)

readable_buffers-gather_example :
    (buffers : List Iovec) × (get_readable_buffers 5 two_blocks ≡ ok (buffers, 1))
    × (gather two_blocks.nodes buffers ≡ take 5 (remaining two_blocks))
readable_buffers-gather_example =
    readable_buffers-gather two_blocks 5 two_blocks-IsValid (omega arith)

read_from_file_lem_example :
    (result : ByteArray) × (read_from_file true (1 ∷ 2 ∷ 3 ∷ 4 ∷ []) two_blocks ≡ ok (true, result))
    × IsValid result
    × (view result ≡ Tape.write (1 ∷ 2 ∷ 3 ∷ 4 ∷ []) (view two_blocks))
read_from_file_lem_example =
    read_from_file_lem two_blocks (1 ∷ 2 ∷ 3 ∷ 4 ∷ []) two_blocks-IsValid (omega arith)
      (omega arith)
