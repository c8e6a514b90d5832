-- ===== src/ByteArray/Strings.antt =====
-- The string members of East/src/ByteArray.cc. A string is the list of its bytes.
pub mod RoundTrip
pub mod Varint
use east.Common.{
  ℕ, ◌%◌, ◌^◌, List, [], length, if◌then◌else◌, ltb, ◌==◌, Outcome, ok, throws, length_error, ◌>>=◌,
}
use east.ByteArray.{ByteArray, Endian, write, read}
use east.ByteArray.Ints.{write_fix, read_fix}
use east.ByteArray.Varint.{write_uint64, read_int64}

module _ (host : Endian) where
  -- writeStringFix16, 32 and 64 for a width of 2, 4 and 8: the length is cut to that width.
  unfoldable pub write_string_fix : ℕ → List ℕ → ByteArray → Outcome ByteArray
  write_string_fix width str b = do
    b' ← write_fix host width (length str % 256 ^ width) b
    write str b'

unfoldable pub write_string_varint : List ℕ → ByteArray → Outcome ByteArray
write_string_varint str b = do b' ← write_uint64 (length str % 2 ^ 64) b; write str b'

unfoldable pub write_string_without_len : List ℕ → ByteArray → Outcome ByteArray
write_string_without_len str b = write str b

-- `max_size` is `std::string::max_size()`: the constructor `std::string(len, ' ')` throws
-- `std::length_error` for more.
module _ (max_size : ℕ) where
  unfoldable pub read_text : ℕ → ByteArray → Outcome (List ℕ × ByteArray)
  read_text len b =
      if len == 0 then ok ([], b) else if ltb max_size len then throws length_error else read len b

  module _ (host : Endian) where
    -- readStringFix16, 32 and 64.
    unfoldable pub read_string_fix : ℕ → ByteArray → Outcome (List ℕ × ByteArray)
    read_string_fix width b = do (len, b') ← read_fix host width b; read_text len b'

    -- The length is read by `readInt64`, which undoes a ZigZag that the writer has not done.
    unfoldable pub read_string_varint : ByteArray → Outcome (List ℕ × ByteArray)
    read_string_varint b = do (len, b') ← read_int64 host b; read_text len b'
