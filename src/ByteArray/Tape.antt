-- ===== src/ByteArray/Tape.antt =====
-- What a byte array promises, with no blocks in it: a sequence of bytes and a position.
use east.Common.{
  ℕ, ◌+◌, ◌-◌, List, length, take, drop, concat, Outcome, ok, throws, out_of_range, if◌then◌else◌,
  ltb,
}
use east.Common.Slices.{overwrite, slice}
use east.ByteArray.{ByteArray}

pub record Tape : Type 0 where
  pub bytes : List ℕ
  pub pos : ℕ

-- The first `size` bytes of the blocks, end to end.
abbrev pub contents : ByteArray → List ℕ
contents b = take b.size (concat b.nodes)

abbrev pub view : ByteArray → Tape
view b = record { bytes = contents b; pos = b.offset }

-- The bytes from the position on.
abbrev pub remaining : ByteArray → List ℕ
remaining b = drop b.offset (contents b)

-- Writing goes over what is there and lengthens the sequence where it ends.
unfoldable pub write : List ℕ → Tape → Tape
write new t = record { bytes = overwrite t.bytes t.pos new; pos = t.pos + length new }

unfoldable pub read : ℕ → Tape → Outcome (List ℕ × Tape)
read n t =
    if ltb (length t.bytes - t.pos) n
    then throws out_of_range
    else ok (slice t.bytes t.pos n, record t { pos = t.pos + n })
