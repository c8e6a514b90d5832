-- ===== src/ByteArray/Contract.antt =====
-- What a caller of East/src/ByteArray.cc may rely on.
use Prim.Native.Nat.{max}
use native.Mathlib.Decide.{dec_le, dec_lt, ℕ_discrete}
use mathlib.Core.Path.{subst}
use east.Common.{
  ℕ, ◌+◌, ◌-◌, ◌^◌, ◌≤◌, ◌<◌, ◌≡◌, refl, sym, ◌⊎◌, inl, inr, List, [], ◌∷◌, length, drop, arith, ok,
  throws, out_of_range, undefined, Bool, lt→ltb, le→ltb-false, Outcome, ◌>>=◌,
}
use east.ByteArray.{
  ByteArray, write, read, read_loop, set_offset, clear, set_little_endian, get_readable_size,
}
use east.ByteArray.Valid.{IsValid}
use east.ByteArray.Tape
use east.ByteArray.Tape.{Tape, view, contents, remaining}
use east.ByteArray.Place.{length-contents, in_block-offset}
use east.ByteArray.Refine.{write-Writes, Reads, read-Reads, read_beyond}
use east.ByteArray.Seek.{
  set_offset-Seeks, set_offset_end, set_offset_beyond, max_size, clear-Cleared,
}
use east.ByteArray.Writing.{viewed}

-- On a well-formed array every `write` of less than 2 ^ 31 bytes that does not wrap a `size_t`
-- returns: the array stays well formed, and reads as the tape on which the bytes were written at
-- the position, over what was there and past its end.
pub write_refines :
    (b : ByteArray) (bytes : List ℕ)
    → IsValid b
    → length bytes < 2 ^ 31
    → b.offset + length bytes + b.block_size < 2 ^ 64
    → (result : ByteArray) × (write bytes b ≡ ok result)
      × IsValid result
      × (view result ≡ Tape.write bytes (view b))
write_refines b bytes v int room =
    let w = write-Writes b v bytes int room in (w.result, w.runs, w.valid, w.tape)

-- What a read that returns leaves is well formed.
abbrev pub LeavesValid : Outcome (List ℕ × ByteArray) → Type 0
LeavesValid (ok (bytes, b)) = IsValid b
LeavesValid (throws err) = Unit

-- `read` of one byte or more gives what the tape gives, `std::out_of_range` included, moves the
-- position as the tape's moves, and leaves the array well formed.
pub read_refines :
    (b : ByteArray) (n : ℕ)
    → IsValid b
    → 1 ≤ n
    → (viewed (read n b) ≡ Tape.read n (view b)) × LeavesValid (read n b)
unfolding Tape.read
read_refines b n v pos = elim (dec_le n (b.size - b.offset)) [
  | yes k ↦ inside (read-Reads b v n pos k) k
  | no k ↦ (
    rw (
      read_beyond b v n (omega arith),
      length-contents b v,
      lt→ltb (b.size - b.offset) n (omega arith),
    ),
    subst LeavesValid (sym (read_beyond b v n (omega arith))) tt,
  )
]
  where
    inside :
        (r : Reads b n)
        → n ≤ b.size - b.offset
        → (viewed (read n b) ≡ Tape.read n (view b)) × LeavesValid (read n b)
    inside r k = (
      rw (r.runs, length-contents b v, le→ltb-false (b.size - b.offset) n k),
      subst LeavesValid (sym r.runs) r.valid,
    )

-- `setOffset` on every branch: below the capacity the position moves and the size grows to it;
-- at the capacity itself the walk reads through a null pointer; above it `std::out_of_range`.
pub set_offset_cases :
    (b : ByteArray) (offset : ℕ)
    → IsValid b
    → ((offset < b.capacity)
        × ((result : ByteArray) × (set_offset offset b ≡ ok result)
            × IsValid result
            × (result.offset ≡ offset)
            × (result.size ≡ max b.size offset)
            × (result.nodes ≡ b.nodes)))
      ⊎ ((offset ≡ b.capacity) × (set_offset offset b ≡ throws undefined))
      ⊎ ((b.capacity < offset) × (set_offset offset b ≡ throws out_of_range))
set_offset_cases b offset v = elim (dec_lt offset b.capacity) [
  | yes h ↦ inl (h, moved h)
  | no h ↦ elim (ℕ_discrete offset b.capacity) [
    | yes same ↦ inr (inl (same, set_offset_end b v offset same))
    | no other ↦ inr (inr (omega arith, set_offset_beyond b v offset (omega arith)))
  ]
]
  where
    moved :
        offset < b.capacity
        → (result : ByteArray) × (set_offset offset b ≡ ok result)
          × IsValid result
          × (result.offset ≡ offset)
          × (result.size ≡ max b.size offset)
          × (result.nodes ≡ b.nodes)
    moved h =
        let s = set_offset-Seeks b v offset h in
        (
          record b { offset = offset; size = max_size b offset; cur = s.cur },
          s.runs,
          s.valid,
          refl,
          ground arith,
          refl,
        )

-- A call that changes the array.
pub data Call : Type 0 where
  writes : List ℕ → Call
  reads : ℕ → Call
  sets_offset : ℕ → Call
  sets_little_endian : Bool → Call
  clears : Call

abbrev pub only_state : Outcome (List ℕ × ByteArray) → Outcome ByteArray
only_state o = o >>= λ r. ok r.1

abbrev pub call : Call → ByteArray → Outcome ByteArray
call (writes bytes) b = write bytes b
call (reads n) b = only_state (read n b)
call (sets_offset offset) b = set_offset offset b
call (sets_little_endian little) b = ok (set_little_endian little b)
call clears b = clear b

-- Room for what a call writes, in an `int` and below the wrap of `size_t`.
abbrev pub Fits : Call → ByteArray → Type 0
Fits (writes bytes) b = (length bytes < 2 ^ 31) × (b.offset + length bytes + b.block_size < 2 ^ 64)
Fits (reads n) b = Unit
Fits (sets_offset offset) b = Unit
Fits (sets_little_endian little) b = Unit
Fits clears b = Unit

-- A read of no byte, where it returns, changes nothing.
read_none-IsValid :
    (b : ByteArray) {result : ByteArray}
    → IsValid b
    → only_state (read 0 b) ≡ ok result
    → IsValid result
unfolding read read_loop
read_none-IsValid b {result} v e = go (drop b.cur b.nodes) refl
  where
    go : (from : List (List ℕ)) → drop b.cur b.nodes ≡ from → IsValid result
    go [] f = cc (fails)
      where
        fails : only_state (read 0 b) ≡ throws undefined
        fails = rw (le→ltb-false (get_readable_size b) 0 (omega arith), in_block-offset b v, f)
    go (n ∷ next) f =
        subst IsValid (cc (stays))
          (subst (λ k. IsValid (record b { cur = k })) {x = b.cur} {y = b.cur + 0} (omega arith) v)
      where
        stays : only_state (read 0 b) ≡ ok (record b { cur = b.cur + 0 })
        stays = rw (le→ltb-false (get_readable_size b) 0 (omega arith), in_block-offset b v, f)

read-IsValid :
    (b : ByteArray) (n : ℕ) {result : ByteArray}
    → IsValid b
    → 1 ≤ n
    → only_state (read n b) ≡ ok result
    → IsValid result
read-IsValid b n {result} v pos = go (read n b) (read_refines b n v pos).1
  where
    go :
        (o : Outcome (List ℕ × ByteArray))
        → LeavesValid o
        → only_state o ≡ ok result
        → IsValid result
    go (ok (x, r)) valid f = subst IsValid (cc f) valid
    go (throws err) valid f = cc f

set_little_endian-IsValid :
    (b : ByteArray) (little : Bool) → IsValid b → IsValid (set_little_endian little b)
unfolding set_little_endian
set_little_endian-IsValid b little v = record {
  nonzero = v.nonzero;
  uniform = v.uniform;
  exact = v.exact;
  rooted = v.rooted;
  from_cur = v.from_cur;
  before_next = v.before_next;
  offset_le = v.offset_le;
  size_le = v.size_le;
  fits = v.fits;
}

-- The five calls write, read, setOffset, setIsLittleEndian and clear: where one of them returns, a well-formed array is
-- well formed afterwards. A write is of less than 2 ^ 31 bytes, and their number with the offset and the size of a block
-- is below 2 ^ 64.
pub call-IsValid :
    (c : Call) (b : ByteArray) {result : ByteArray}
    → IsValid b
    → Fits c b
    → call c b ≡ ok result
    → IsValid result
call-IsValid (writes bytes) b v fits e =
    let (r, runs, valid, tape) = write_refines b bytes v fits.0 fits.1 in
    subst IsValid (cc (runs)) valid
call-IsValid (reads n) b {result} v fits e = elim (ℕ_discrete n 0) [
  | yes z ↦ read_none-IsValid b v (subst (λ k. only_state (read k b) ≡ ok result) z e)
  | no z ↦ read-IsValid b n v (omega arith) e
]
call-IsValid (sets_offset offset) b {result} v fits e = elim (set_offset_cases b offset v) [
  | inl (h, found) ↦ subst IsValid (cc (found.1)) found.2
  | inr (inl (h, fails)) ↦ cc (fails)
  | inr (inr (h, fails)) ↦ cc (fails)
]
call-IsValid (sets_little_endian little) b v fits e =
    subst IsValid (cc e) (set_little_endian-IsValid b little v)
call-IsValid clears b v fits e = let r = clear-Cleared b v in subst IsValid (cc (r.runs)) r.valid
