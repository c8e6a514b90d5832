-- ===== src/ByteArray/Whole.antt =====
-- What `toString`, a read elsewhere and a new array of East/src/ByteArray.cc give.
use native.Mathlib.Decide.{ℕ_discrete}
use mathlib.Core.Path.{ap₂}
use mathlib.Core.List.{append-nil}
use native.Mathlib.Nat.{mod-lt}
use east.Common.{
  ℕ, zero, suc, drop-all, ◌+◌, ◌-◌, ◌*◌, ◌%◌, ◌^◌, ◌≤◌, ◌<◌, ◌≡◌, sym, ap, ◌∙◌, List, [], ◌++◌,
  length, take, drop, concat, replicate, arith, ok, le→ltb-false, length-replicate, pos-ne_zero,
  take-all,
}
use east.Common.Words.{sub64-no_wrap}
use east.Common.Slices.{slice, slice-append_right, slice-take}
use east.ByteArray.{ByteArray, write, read_at, in_block, init, to_string, uninit}
use east.ByteArray.Blocks.{Uniform-drop, concat-split}
use east.ByteArray.Valid.{IsValid, Copied, read_loop-Copied}
use east.ByteArray.Tape
use east.ByteArray.Tape.{Tape, view, contents, remaining}
use east.ByteArray.Place.{
  length-contents, block_small, length-back, length-flat, length-front, get_readable_size_lem,
  mod-block_pos,
}
use east.ByteArray.Refine.{write-Writes}
use east.ByteArray.Seek.{init-IsValid}
use east.ByteArray.Reading.{length-remaining}

-- `read(buf, size, offset)` takes the block of the position for that of `offset`: what it copies
-- stands at `offset % block_size` of the block of the position.
pub read_at_block :
    (b : ByteArray) (n offset : ℕ)
    → IsValid b
    → 1 ≤ n
    → offset + n ≤ b.size
    → offset % b.block_size + n ≤ b.capacity - b.cur * b.block_size
    → read_at n offset b
      ≡ ok (slice (concat b.nodes) (b.cur * b.block_size + offset % b.block_size) n)
unfolding read_at in_block
read_at_block b n offset v pos inside enough =
    rw
      (
        sub64-no_wrap b.size offset (omega arith) (omega (arith, v.size_le, v.fits)),
        le→ltb-false (b.size - offset) n (omega arith),
        pos-ne_zero b.block_size v.nonzero,
        walk.runs,
      )
      (ap ok (
        sym (
          slice-append_right (concat (take b.cur b.nodes)) (concat (drop b.cur b.nodes))
            (offset % b.block_size) n)
        ∙ ap₂ (λ l o. slice l (o + offset % b.block_size) n) (sym (concat-split b.cur b.nodes))
            (length-front b v)))
  where
    walk : Copied b.block_size (offset % b.block_size) offset n (drop b.cur b.nodes)
    walk =
        read_loop-Copied b.block_size v.nonzero (block_small b v) (drop b.cur b.nodes)
          (offset % b.block_size) offset n (Uniform-drop b.block_size b.cur b.nodes v.uniform)
          (mod-lt offset v.nonzero) pos (omega (arith, length-back b v))
          (omega (arith, v.size_le, v.fits))

-- `toString` gives the bytes from the position on.
pub to_string_lem : (b : ByteArray) → IsValid b → to_string b ≡ ok (remaining b)
unfolding to_string
to_string_lem b v = elim (ℕ_discrete (b.size - b.offset) 0) [
  | yes none_left ↦
      rw (get_readable_size_lem b v, none_left)
        (ap ok (sym (drop-all b.offset (contents b) (omega (arith, length-contents b v)))))
  | no some_left ↦
      rw (get_readable_size_lem b v, pos-ne_zero (b.size - b.offset) (omega arith))
        (read_at_block b (b.size - b.offset) b.offset v (omega arith) (omega (arith, v.offset_le))
            (omega (arith, mod-block_pos b v, v.size_le, v.from_cur, v.offset_le))
          ∙ ap ok (
              ap (λ k. slice (concat b.nodes) k (b.size - b.offset))
                (omega (arith, mod-block_pos b v, v.from_cur))
              ∙ sym (
                  slice-take (concat b.nodes) b.size b.offset (b.size - b.offset)
                    (omega (arith, v.offset_le)) (omega (arith, length-flat b v, v.size_le)))
              ∙ take-all (b.size - b.offset) (remaining b) (omega (arith, length-remaining b v))))
]

drop-replicate : (n k : ℕ) → drop k (replicate n uninit) ≡ replicate (n - k) uninit
drop-replicate n zero = ap (λ m. replicate m uninit) (omega arith)
drop-replicate zero (suc k) = ap (λ m. replicate m uninit) {x = 0} (omega arith)
drop-replicate (suc n) (suc k) = drop-replicate n k ∙ ap (λ m. replicate m uninit) (omega arith)

-- A new array already counts the uninitialised bytes of its first block as data: after a shorter
-- write from the start its contents are the bytes written and the rest of the block behind them.
pub fresh_contents :
    (bs : ℕ) (bytes : List ℕ)
    → 1 ≤ bs
    → bs < 2 ^ 31
    → length bytes < bs
    → (result : ByteArray) × (write bytes (init bs) ≡ ok result)
      × (contents result ≡ bytes ++ replicate (bs - length bytes) uninit)
unfolding init Tape.write
fresh_contents bs bytes pos int short =
    let w =
      write-Writes (init bs) (init-IsValid bs pos (omega arith)) bytes (omega arith)
        (omega arith) in
    (w.result, w.runs, ap (λ (t : Tape). t.bytes) w.tape ∙ ap (λ l. bytes ++ l) rest)
  where
    rest :
        drop (0 + length bytes) (take bs (replicate bs uninit ++ []))
        ≡ replicate (bs - length bytes) uninit
    rest =
        ap (drop (0 + length bytes)) (
          ap (take bs) (append-nil (replicate bs uninit))
          ∙ take-all bs (replicate bs uninit) (omega (arith, length-replicate bs uninit)))
        ∙ drop-replicate bs (0 + length bytes)
        ∙ ap (λ k. replicate k uninit) (omega arith)
