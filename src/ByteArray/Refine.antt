-- ===== src/ByteArray/Refine.antt =====
-- A well-formed byte array reads and writes as a tape.
use mathlib.Core.Path.{ap₂}
use native.Mathlib.Decide.{dec_lt}
use east.Common.{
  ℕ, suc, ◌+◌, ◌-◌, ◌*◌, ◌^◌, ◌≤◌, ◌<◌, ◌≡◌, refl, sym, ap, ◌∙◌, List, [], ◌∷◌, ◌++◌, length, take,
  drop, concat, length-append, arith, ltb, if◌then◌else◌, ◌==◌, ok, false, le→ltb-false, lt→ltb,
  length-take, take-append_le, take-append-drop, length-drop, throws, Outcome, out_of_range, ◌>>=◌,
}
use east.Common.Slices.{overwrite, slice, slice-take, overwrite-take_beyond, overwrite-take_inside}
use east.ByteArray.{ByteArray, write, read, write_loop}
use east.ByteArray.Blocks.{Uniform-append, Uniform-take, Uniform-drop, concat-append}
use east.ByteArray.Valid.{IsValid, Wrote, write_loop-Wrote, Copied, read_loop-Copied}
use east.ByteArray.Grow.{Grown, add_capacity-Grown}
use east.ByteArray.Tape
use east.ByteArray.Tape.{Tape, contents, view, remaining}
use east.ByteArray.Place.{
  block_pos, at_lt, in_block-offset, length-flat, length-back, block_small, slice-back,
  overwrite-back, get_readable_size_lem,
}

-- `b` with the position moved to `offset`, and `m_cur` with it.
abbrev pub moved_to : ByteArray → ℕ → ℕ → ByteArray
moved_to b cur offset = record b { cur = cur; offset = offset }

-- What a read of `n` bytes does.
pub record Reads (b : ByteArray) (n : ℕ) : Type 0 where
  pub cur : ℕ
  pub runs : read n b ≡ ok (slice (contents b) b.offset n, moved_to b cur (b.offset + n))
  pub valid : IsValid (moved_to b cur (b.offset + n))

-- What a member does that writes `bytes` and nothing else.
pub record Stores (writer : ByteArray → Outcome ByteArray) (b : ByteArray) (bytes : List ℕ)
    : Type 0 where
  pub result : ByteArray
  pub runs : writer b ≡ ok result
  pub valid : IsValid result
  pub tape : view result ≡ Tape.write bytes (view b)
  pub same_block_size : result.block_size ≡ b.block_size
  pub same_endian : result.endian ≡ b.endian

abbrev pub Writes : ByteArray → List ℕ → Type 0
Writes b bytes = Stores (write bytes) b bytes

module _ (b : ByteArray) (v : IsValid b) where
  pub read-Reads : (n : ℕ) → 1 ≤ n → n ≤ b.size - b.offset → Reads b n
  unfolding read
  read-Reads n h k = record {
    cur = b.cur + walk.steps;
    runs = rw (
      get_readable_size_lem b v,
      le→ltb-false (b.size - b.offset) n k,
      in_block-offset b v,
      walk.runs,
      slice-back b v n,
      ← slice-take (concat b.nodes) b.size b.offset n (omega arith)
          (omega (arith, length-flat b v, v.size_le)),
    );
    valid = record {
      nonzero = v.nonzero;
      uniform = v.uniform;
      exact = v.exact;
      rooted = v.rooted;
      from_cur = omega (arith, walk.low, v.from_cur);
      before_next = omega (arith, walk.high, v.from_cur);
      offset_le = omega (arith, v.offset_le);
      size_le = v.size_le;
      fits = v.fits;
    };
  }
    where
      walk : Copied b.block_size (block_pos b) b.offset n (drop b.cur b.nodes)
      walk =
          read_loop-Copied b.block_size v.nonzero (block_small b v) (drop b.cur b.nodes)
            (block_pos b) b.offset n (Uniform-drop b.block_size b.cur b.nodes v.uniform) (at_lt b v)
            h (omega (arith, length-back b v, v.size_le, v.from_cur, v.offset_le))
            (omega (arith, v.size_le, v.fits, v.offset_le))

  pub read_beyond : (n : ℕ) → b.size - b.offset < n → read n b ≡ throws out_of_range
  unfolding read
  read_beyond n h = rw (get_readable_size_lem b v, lt→ltb (b.size - b.offset) n h)

-- A write where there is room already.
module _ (b : ByteArray) (v : IsValid b) (bytes : List ℕ) (some_bytes : 1 ≤ length bytes)
    (room : b.offset + length bytes ≤ b.capacity) where
  abbrev new_size : ℕ
  new_size = if ltb b.size (b.offset + length bytes) then b.offset + length bytes else b.size

  walk : Wrote b.block_size (block_pos b) b.offset bytes (drop b.cur b.nodes)
  walk =
      write_loop-Wrote b.block_size v.nonzero (block_small b v) (drop b.cur b.nodes) (block_pos b)
        b.offset bytes (Uniform-drop b.block_size b.cur b.nodes v.uniform) (at_lt b v) some_bytes
        (omega (arith, length-back b v, v.size_le, v.from_cur, v.offset_le))
        (omega (arith, v.size_le, v.fits, v.offset_le))

  abbrev written : ByteArray
  written = record b {
    nodes = take b.cur b.nodes ++ walk.nodes;
    cur = b.cur + walk.steps;
    offset = b.offset + length bytes;
    size = new_size;
  }

  written-runs :
      (do
        (nodes, steps, offset) ← write_loop (block_pos b) b.offset bytes (drop b.cur b.nodes)
        ok (record b {
          nodes = take b.cur b.nodes ++ nodes;
          cur = b.cur + steps;
          offset = offset;
          size = if ltb b.size offset then offset else b.size;
        }))
      ≡ ok written
  written-runs = rw walk.runs

  flat-written : concat written.nodes ≡ overwrite (concat b.nodes) b.offset bytes
  flat-written =
      concat-append (take b.cur b.nodes) walk.nodes
      ∙ ap (λ l. concat (take b.cur b.nodes) ++ l) walk.flat
      ∙ overwrite-back b v bytes

  written-IsValid : IsValid written
  written-IsValid = record {
    nonzero = v.nonzero;
    uniform =
        Uniform-append b.block_size (take b.cur b.nodes) walk.nodes
          (Uniform-take b.block_size b.cur b.nodes v.uniform) walk.uniform;
    exact = v.exact ∙ ap (λ k. k * b.block_size) (sym same);
    rooted = omega (arith, v.rooted, same);
    from_cur = omega (arith, walk.low, v.from_cur);
    before_next = omega (arith, walk.high, v.from_cur);
    offset_le = ground arith;
    size_le = ground (arith, v.size_le);
    fits = v.fits;
  }
    where
      same : length (take b.cur b.nodes ++ walk.nodes) ≡ length b.nodes
      same = omega (
        arith,
        length-append (take b.cur b.nodes) walk.nodes,
        walk.same_length,
        length-take b.cur b.nodes,
        length-drop b.cur b.nodes,
      )

  contents-written : contents written ≡ overwrite (contents b) b.offset bytes
  contents-written =
      ap (take new_size) flat-written ∙ elim (dec_lt b.size (b.offset + length bytes)) [
        | yes beyond ↦ rw (lt→ltb b.size (b.offset + length bytes) beyond) (
            overwrite-take_beyond (concat b.nodes) b.size b.offset bytes v.offset_le
              (omega (arith, length-flat b v, v.size_le)) (omega arith))
        | no inside ↦ rw (le→ltb-false b.size (b.offset + length bytes) (omega arith)) (
            overwrite-take_inside (concat b.nodes) b.size b.offset bytes
              (omega (arith, length-flat b v, v.size_le)) (omega arith))
      ]

module _ (b : ByteArray) (v : IsValid b) (bytes : List ℕ) (some_bytes : 1 ≤ length bytes)
    (g : Grown b (length bytes)) where
  room : g.result.offset + length bytes ≤ g.result.capacity
  room = omega (arith, g.same_offset, g.enough)

  contents-grown : contents g.result ≡ contents b
  contents-grown =
      ap₂ take g.same_size g.flat
      ∙ take-append_le b.size (concat b.nodes) g.junk (omega (arith, length-flat b v, v.size_le))

  write_runs : write bytes b ≡ ok (written g.result g.valid bytes some_bytes room)
  unfolding write
  write_runs =
      rw (ne_zero, g.runs, in_block-offset g.result g.valid)
        (written-runs g.result g.valid bytes some_bytes room)
    where
      ne_zero : (length bytes == 0) ≡ false
      ne_zero = ground arith

  write_grown : Writes b bytes
  unfolding Tape.write
  write_grown = record {
    result = written g.result g.valid bytes some_bytes room;
    runs = write_runs;
    valid = written-IsValid g.result g.valid bytes some_bytes room;
    tape = λ i. record { bytes = same_bytes i; pos = same_pos i };
    same_block_size = g.same_block_size;
    same_endian = g.same_endian;
  }
    where
      same_bytes :
          contents (written g.result g.valid bytes some_bytes room)
          ≡ overwrite (contents b) b.offset bytes
      same_bytes =
          contents-written g.result g.valid bytes some_bytes room
          ∙ ap₂ (λ c o. overwrite c o bytes) contents-grown g.same_offset

      same_pos : g.result.offset + length bytes ≡ b.offset + length bytes
      same_pos = ap (λ (o : ℕ). o + length bytes) g.same_offset

module _ (b : ByteArray) (v : IsValid b) where
  -- Nothing to write leaves the array as it is.
  write_nothing : Writes b []
  unfolding Tape.write
  write_nothing = record {
    result = b;
    runs = unfold write in refl;
    valid = v;
    tape = λ i. record { bytes = same_bytes i; pos = same_pos i };
    same_block_size = refl;
    same_endian = refl;
  }
    where
      same_bytes : contents b ≡ overwrite (contents b) b.offset []
      same_bytes =
          sym (take-append-drop b.offset (contents b))
          ∙ ap (λ k. take b.offset (contents b) ++ drop k (contents b)) (omega arith)

      same_pos : b.offset ≡ b.offset + 0
      same_pos = omega arith

  pub write-Writes :
      (bytes : List ℕ)
      → length bytes < 2 ^ 31
      → b.offset + length bytes + b.block_size < 2 ^ 64
      → Writes b bytes
  write-Writes [] h k = write_nothing
  write-Writes (x ∷ xs) h k =
      write_grown b v (x ∷ xs) (omega arith)
        (add_capacity-Grown b v (suc (length xs)) (omega arith) h k)
