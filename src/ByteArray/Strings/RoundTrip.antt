-- ===== src/ByteArray/Strings/RoundTrip.antt =====
-- Strings written and read back.
use mathlib.Core.Path.{subst}
use mathlib.Core.List.{append_assoc}
use native.Mathlib.Nat.{mod-eq_of_lt}
use east.Common.{
  ℕ, suc, ◌+◌, ◌%◌, ◌^◌, ◌≤◌, ◌<◌, ◌≡◌, refl, sym, ap, ◌∙◌, List, [], ◌∷◌, ◌++◌, length, arith, ok,
  drop, le→ltb-false, pos-ne_zero, length-append,
}
use east.ByteArray.{ByteArray, Endian, write, read}
use east.ByteArray.Valid.{IsValid}
use east.ByteArray.Tape
use east.ByteArray.Tape.{view, remaining, contents}
use east.ByteArray.Refine.{Stores, write-Writes, moved_to}
use east.ByteArray.Reading.{Yields, read-Yields, both-Yields}
use east.ByteArray.Writing.{Stores-then, write_back, write_back_lem}
use east.ByteArray.Ints.{to_memory, write_fix, read_fix}
use east.ByteArray.Ints.Bytes.{length-to_memory}
use east.ByteArray.Ints.Fixed.{write_fix-Stores, read_fix-Yields}
use east.ByteArray.Strings.{write_string_fix, read_string_fix, read_text}

read_text-Yields :
    (max_size : ℕ) (str : List ℕ) (s : ByteArray) (rest : List ℕ)
    → IsValid s
    → length str ≤ max_size
    → remaining s ≡ str ++ rest
    → Yields (read_text max_size (length str)) s str (length str) rest
unfolding read_text
read_text-Yields max_size [] s rest v h e = record {
  cur = s.cur;
  runs = ap (λ o. ok ([], moved_to s s.cur o)) stay;
  valid = subst (λ o. IsValid (moved_to s s.cur o)) stay v;
  left = ap (λ o. drop o (contents s)) (sym stay) ∙ e;
}
  where
    stay : s.offset ≡ s.offset + 0
    stay = omega arith
read_text-Yields max_size (x ∷ xs) s rest v h e = record {
  cur = y.cur;
  runs =
      rw (pos-ne_zero (suc (length xs)) (omega arith), le→ltb-false max_size (suc (length xs)) h)
        y.runs;
  valid = y.valid;
  left = y.left;
}
  where
    y : Yields (read (suc (length xs))) s (x ∷ xs) (suc (length xs)) rest
    y = read-Yields (suc (length xs)) s (x ∷ xs) rest refl v (omega arith) e

-- A string with its length in a fixed width of 1 to 8 bytes, written, gone back to and read, comes back, and the array
-- holds the length and then the string. The length fits that width, is below 2 ^ 31 and at most the largest size of a
-- string, and there is room for it below 2 ^ 64.
pub string_fix_round_trip :
    (max_size : ℕ) (host : Endian) (w : ℕ) (str : List ℕ) (b : ByteArray)
    → IsValid b
    → 1 ≤ w
    → w ≤ 8
    → length str < 256 ^ w
    → length str < 2 ^ 31
    → length str ≤ max_size
    → b.offset + 8 + length str + b.block_size < 2 ^ 64
    → write_back (write_string_fix host w str) (read_string_fix max_size host w) b
      ≡ ok (str, Tape.write (to_memory b.endian w (length str) ++ str) (view b))
unfolding write_string_fix read_string_fix
string_fix_round_trip max_size host w str b v w_pos w_le fits int max room =
    write_back_lem b v (prefix ++ str) (omega (arith, both, prefix_len)) stores
      (read_string_fix max_size host w) str (w + length str) (omega (arith, both, prefix_len))
      λ s rest vs same e.
        both-Yields (read_fix host w) (read_text max_size) s (length str) str w (length str)
          (str ++ rest) rest
          (read_fix-Yields host w (length str) s (str ++ rest) vs w_pos fits (
            e
            ∙ append_assoc prefix str rest
            ∙ ap (λ o. to_memory o w (length str) ++ (str ++ rest)) (sym same)))
          (λ t vt left. read_text-Yields max_size str t rest vt max left)
  where
    prefix : List ℕ
    prefix = to_memory b.endian w (length str)

    prefix_len : length prefix ≡ w
    prefix_len = length-to_memory b.endian w (length str)

    both : length (prefix ++ str) ≡ length prefix + length str
    both = length-append prefix str

    whole : length str % 256 ^ w ≡ length str
    whole = mod-eq_of_lt fits

    first : Stores (write_fix host w (length str % 256 ^ w)) b prefix
    first =
        subst (λ n. Stores (write_fix host w n) b prefix) (sym whole)
          (write_fix-Stores host w (length str) b v w_le (omega arith))

    stores : Stores (write_string_fix host w str) b (prefix ++ str)
    stores =
        Stores-then (write_fix host w (length str % 256 ^ w)) (write str) b prefix str v first
          (λ r vr at bs. write-Writes r vr str int (omega (arith, at, bs, prefix_len)))
