-- ===== src/ByteArray/Place.antt =====
-- Where the position of a byte array stands in its chain of blocks.
use mathlib.Core.Path.{ap₂}
use native.Mathlib.Nat.{
  le_of_mul-le-mul_right, mul-le-mul_right, mul-add-mod_self_right, mod-eq_of_lt,
}
use east.Common.{
  ℕ, ◌+◌, ◌-◌, ◌*◌, ◌%◌, ◌^◌, ◌≤◌, ◌<◌, ◌≡◌, sym, ap, ◌∙◌, List, ◌++◌, length, take, drop, concat,
  length-append, arith, ok, pos-ne_zero, length-take,
}
use east.Common.Words.{sub64-no_wrap}
use east.Common.Slices.{overwrite, slice, overwrite-append_right, slice-append_right}
use east.ByteArray.{ByteArray, in_block, get_readable_size}
use east.ByteArray.Blocks.{concat-split, length-concat, length-before}
use east.ByteArray.Valid.{IsValid}
use east.ByteArray.Tape.{contents}

-- The position within the block of `m_cur`.
abbrev pub block_pos : ByteArray → ℕ
block_pos b = b.offset - b.cur * b.block_size

module _ (b : ByteArray) (v : IsValid b) where
  pub at_lt : block_pos b < b.block_size
  at_lt = omega (arith, v.from_cur, v.before_next)

  pub cur-le : b.cur ≤ length b.nodes
  cur-le =
      le_of_mul-le-mul_right {m = b.cur} {n = length b.nodes} {k = b.block_size}
        (omega (arith, v.exact, v.from_cur, v.offset_le, v.size_le)) v.nonzero

  pub mod-block_pos : b.offset % b.block_size ≡ block_pos b
  mod-block_pos =
      ap (λ (x : ℕ). x % b.block_size) {y = b.cur * b.block_size + block_pos b}
        (omega (arith, v.from_cur))
      ∙ mul-add-mod_self_right b.cur b.block_size (block_pos b)
      ∙ mod-eq_of_lt at_lt

  pub in_block-offset : in_block b b.offset ≡ ok (block_pos b)
  unfolding in_block
  in_block-offset = rw (pos-ne_zero b.block_size v.nonzero, mod-block_pos)

  pub length-flat : length (concat b.nodes) ≡ b.capacity
  length-flat = length-concat b.block_size b.nodes v.uniform ∙ sym v.exact

  pub length-front : length (concat (take b.cur b.nodes)) ≡ b.cur * b.block_size
  length-front = length-before b.block_size b.cur b.nodes v.uniform cur-le

  pub length-back : length (concat (drop b.cur b.nodes)) ≡ b.capacity - b.cur * b.block_size
  length-back = omega (
    arith,
    length-flat,
    length-front,
    ap length (concat-split b.cur b.nodes),
    length-append (concat (take b.cur b.nodes)) (concat (drop b.cur b.nodes)),
  )

  pub block_small : b.block_size < 2 ^ 64
  block_small = omega (arith, mul-le-mul_right b.block_size v.rooted, v.exact, v.fits)

  -- The walk from `m_cur` copies out of the flat memory at the position.
  pub slice-back :
      (n : ℕ)
      → slice (concat (drop b.cur b.nodes)) (block_pos b) n ≡ slice (concat b.nodes) b.offset n
  slice-back n =
      sym (
        slice-append_right (concat (take b.cur b.nodes)) (concat (drop b.cur b.nodes)) (block_pos b)
          n)
      ∙ ap₂ (λ l o. slice l o n) (sym (concat-split b.cur b.nodes))
          (omega (arith, length-front, v.from_cur))

  pub overwrite-back :
      (bytes : List ℕ)
      → concat (take b.cur b.nodes) ++ overwrite (concat (drop b.cur b.nodes)) (block_pos b) bytes
        ≡ overwrite (concat b.nodes) b.offset bytes
  overwrite-back bytes =
      sym (
        overwrite-append_right (concat (take b.cur b.nodes)) (concat (drop b.cur b.nodes))
          (block_pos b) bytes)
      ∙ ap₂ (λ l o. overwrite l o bytes) (sym (concat-split b.cur b.nodes))
          (omega (arith, length-front, v.from_cur))

  pub get_readable_size_lem : get_readable_size b ≡ b.size - b.offset
  unfolding get_readable_size
  get_readable_size_lem =
      sub64-no_wrap b.size b.offset v.offset_le (omega (arith, v.size_le, v.fits))

  pub length-contents : length (contents b) ≡ b.size
  length-contents = omega (arith, length-take b.size (concat b.nodes), length-flat, v.size_le)
