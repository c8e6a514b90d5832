-- ===== src/Stream.antt =====
-- East/src/Stream.cc, and the streams of East/http: what a peer sends arrives in pieces of any size.
pub mod Whole
mod Tests
use east.Common.{
  ℕ, zero, suc, ◌-◌, ◌^◌, ◌%◌, min, Bool, ◌&&◌, List, [], ◌∷◌, ◌++◌, length, take, drop,
  if◌then◌else◌, ltb, ◌==◌,
}

-- What is still to be read, and how much each later read may give at most. A read that gives nothing is one whose
-- result is 0 or less, and so is one behind the last.
pub record Channel : Type 0 where
  pub sizes : List ℕ
  pub input : List ℕ

-- The bytes of one `read` of at most `n`, with `size` to come.
abbrev pub piece : ℕ → ℕ → List ℕ → List ℕ
piece size n input = take (min size n) input

abbrev pub after_piece : ℕ → ℕ → List ℕ → List ℕ
after_piece size n input = drop (min size n) input

-- An `int` is kept as its 32 bits: what a `size_t` becomes when it is returned, -1, and the test for 1 or more.
unfoldable pub to_int : ℕ → ℕ
to_int len = len % 2 ^ 32

abbrev pub minus_one : ℕ
minus_one = 2 ^ 32 - 1

unfoldable pub is_positive : ℕ → Bool
is_positive n = ltb 0 n && ltb n (2 ^ 31)

-- The bytes that `readFixSize` has put into the buffer, the `int` that it returns, and the channel after it.
pub record Fixed : Type 0 where
  pub got : List ℕ
  pub result : ℕ
  pub channel : Channel

abbrev pub stopped : ℕ → List ℕ → List ℕ → Fixed
stopped result sizes input = record {
  got = [];
  result = result;
  channel = record { sizes = sizes; input = input };
}

abbrev pub and_more : List ℕ → Fixed → Fixed → Fixed
and_more [] failed later = failed
and_more (b ∷ bytes) failed later = record later { got = (b ∷ bytes) ++ later.got }

-- The loop of `readFixSize`, which returns `result` when nothing is left.
abbrev pub fixed_loop : ℕ → List ℕ → ℕ → List ℕ → Fixed
fixed_loop result [] left input = stopped (if left == 0 then result else minus_one) [] input
fixed_loop result (size ∷ sizes) left input =
    let bytes = piece size left input in
    let later = fixed_loop result sizes (left - length bytes) (after_piece size left input) in
    if left == 0
    then stopped result (size ∷ sizes) input
    else and_more bytes (stopped minus_one sizes input) later

-- `return len` makes an `int` of a `size_t`.
unfoldable pub read_fix_size : ℕ → Channel → Fixed
read_fix_size len c = fixed_loop (to_int len) c.sizes len c.input

-- The loop of `writeFixSize`, which is that of `readFixSize` on the bytes of the buffer: what the peer is sent, with the
-- sizes that it takes.
unfoldable pub write_fix_size : List ℕ → List ℕ → Fixed
write_fix_size buffer sizes = fixed_loop (to_int (length buffer)) sizes (length buffer) buffer
