-- ===== src/ByteArray/Strings/Varint.antt =====
-- `readStringVarint` behind `writeStringVarint`: the length is read by the wrong member.
use native.Mathlib.Decide.{ℕ_discrete, dec_le}
use native.Mathlib.Nat.{mod-eq_of_lt}
use mathlib.Core.Path.{subst}
use east.Common.{
  ℕ, ◌+◌, ◌-◌, ◌%◌, ◌^◌, ◌≤◌, ◌<◌, ◌≡◌, ◌≢◌, refl, sym, ap, ◌∙◌, List, ◌++◌, length, arith, ok,
  throws, ◌>>=◌, length-append, Outcome, drop,
}
use east.Common.Slices.{slice, length-slice}
use mathlib.Core.List.{append_assoc}
use east.ByteArray.{ByteArray, Endian, write, read}
use east.ByteArray.Valid.{IsValid}
use east.ByteArray.Tape.{Tape, remaining, contents}
use east.ByteArray.Place.{length-contents}
use east.ByteArray.Refine.{Stores, write-Writes, read-Reads, Reads, read_beyond, moved_to}
use east.ByteArray.Reading.{Yields}
use east.ByteArray.Writing.{
  Stores-then, write_back, write_back-reader, viewed, rewound, back, remaining-rewound,
}
use east.ByteArray.Varint.{read_int64, write_uint64, decode_zigzag}
use east.ByteArray.Varint.Encode.{varint, length-varint}
use east.ByteArray.Varint.RoundTrip.{write_uint64-Stores, read_int64-Yields}
use east.ByteArray.Varint.ZigZag.{decode_zigzag_even, decode_zigzag_odd}
use east.ByteArray.Strings.{read_text, write_string_varint, read_string_varint}

-- What `read` returns has the length that was asked for.
length-read :
    (n : ℕ) (b : ByteArray) {x : List ℕ} {t : ByteArray}
    → IsValid b
    → 1 ≤ n
    → read n b ≡ ok (x, t)
    → length x ≡ n
length-read n b {x} v h e = elim (dec_le n (b.size - b.offset)) [
  | yes k ↦ inside (read-Reads b v n h k) k
  | no k ↦ cc (read_beyond b v n (omega arith))
]
  where
    inside : (r : Reads b n) → n ≤ b.size - b.offset → length x ≡ n
    inside r k =
        ap length same
        ∙ length-slice (contents b) b.offset n (omega (arith, length-contents b v, v.offset_le))
      where
        same : x ≡ slice (contents b) b.offset n
        same = cc (r.runs)

length-read_text :
    (max_size n : ℕ) (b : ByteArray) {x : List ℕ} {t : ByteArray}
    → IsValid b
    → read_text max_size n b ≡ ok (x, t)
    → length x ≡ n
unfolding read_text
length-read_text max_size n b {x} {t} v e = elim (ℕ_discrete n 0) [
  | yes z ↦ ground arith
  | no z ↦ length-read n b {x = x} {t = t} v (omega arith) (ground arith)
]

-- Reading a length of 1 or more the ZigZag way gives another length.
decode_ne : (n : ℕ) → 1 ≤ n → n < 2 ^ 31 → decode_zigzag 63 n ≢ n
decode_ne n h k = elim (ℕ_discrete (n % 2) 0) [
  | yes even ↦ omega (arith, decode_zigzag_even 63 (omega arith) n (omega arith) even)
  | no odd ↦ omega (arith, decode_zigzag_odd 63 (omega arith) n (omega arith) (omega arith))
]

-- The same behind the view of what is left.
length-viewed :
    (max_size n : ℕ) (b : ByteArray) (x : List ℕ) (t : Tape)
    → IsValid b
    → viewed (read_text max_size n b) ≡ ok (x, t)
    → length x ≡ n
length-viewed max_size n b x t v = go (read_text max_size n b) refl
  where
    go :
        (o : Outcome (List ℕ × ByteArray))
        → read_text max_size n b ≡ o
        → viewed o ≡ ok (x, t)
        → length x ≡ n
    go (ok (y, s)) e f = ap length (sym (cc f)) ∙ length-read_text max_size n b {x = y} {t = s} v e
    go (throws err) e f = cc f

-- A string of 1 to 2 ^ 31 - 1 bytes written by `writeStringVarint`, gone back to and read by
-- `readStringVarint`, never comes back, whatever array the read leaves.
pub string_varint_lost :
    (max_size : ℕ) (host : Endian) (str : List ℕ) (b : ByteArray)
    → IsValid b
    → 1 ≤ length str
    → length str < 2 ^ 31
    → b.offset + 10 + length str + b.block_size < 2 ^ 64
    → (t : Tape)
    → write_back (write_string_varint str) (read_string_varint max_size host) b ≢ ok (str, t)
unfolding write_string_varint read_string_varint
string_varint_lost max_size host str b v some_bytes int room t e =
    decode_ne n some_bytes int
      (sym (length-viewed max_size (decode_zigzag 63 n) after str t y.valid returned))
  where
    n : ℕ
    n = length str

    rest : List ℕ
    rest = drop (length (varint 9 n ++ str)) (remaining b)

    first : Stores (write_uint64 (n % 2 ^ 64)) b (varint 9 n)
    first =
        subst (λ k. Stores (write_uint64 k) b (varint 9 n))
          (sym (mod-eq_of_lt {n = n} (omega arith)))
          (write_uint64-Stores b v n (omega arith) (omega arith))

    stores : Stores (write_string_varint str) b (varint 9 n ++ str)
    stores =
        Stores-then (write_uint64 (n % 2 ^ 64)) (write str) b (varint 9 n) str v first
          (λ r vr at bs. write-Writes r vr str int (omega (arith, at, bs, length-varint 9 n)))

    long : 1 ≤ length (varint 9 n ++ str)
    long = omega (arith, length-append (varint 9 n) str)

    start : ByteArray
    start = rewound b v (varint 9 n ++ str) long stores

    y : Yields (read_int64 host) start (decode_zigzag 63 n) (length (varint 9 n)) (str ++ rest)
    y =
        read_int64-Yields host n start (str ++ rest)
          (back b v (varint 9 n ++ str) long stores).valid (omega arith)
          (remaining-rewound b v (varint 9 n ++ str) long stores
            ∙ append_assoc (varint 9 n) str rest)

    after : ByteArray
    after = moved_to start y.cur (start.offset + length (varint 9 n))

    returned : viewed (read_text max_size (decode_zigzag 63 n) after) ≡ ok (str, t)
    returned =
        sym (
          write_back-reader b v (varint 9 n ++ str) long stores (read_string_varint max_size host)
          ∙ ap (λ o. viewed (◌>>=◌ o (λ r. read_text max_size r.0 r.1))) y.runs)
        ∙ e
