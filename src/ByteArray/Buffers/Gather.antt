-- ===== src/ByteArray/Buffers/Gather.antt =====
-- What the iovecs of a byte array cover.
use native.Mathlib.Decide.{dec_le, ℕ_discrete}
use mathlib.Core.List.{append-nil}
use east.Common.{
  ℕ, zero, suc, min, ◌+◌, ◌-◌, ◌^◌, ◌≤◌, ◌<◌, ◌≡◌, refl, sym, ap, ◌∙◌, List, [], ◌∷◌, ◌++◌, length,
  take, drop, concat, arith, ok, le→leb, lt→leb-false, pos-ne_zero, take-all, length-append,
}
use east.Common.Words.{sub64, sub64-no_wrap}
use east.Common.Slices.{slice, slice-append_left, slice-append_across, slice-take}
use east.ByteArray.{ByteArray, Node}
use east.ByteArray.Blocks.{Uniform, Uniform-drop}
use east.ByteArray.Valid.{IsValid}
use east.ByteArray.Tape.{remaining}
use east.ByteArray.Buffers.{Iovec, buffers_loop, get_readable_buffers, clamp_readable}
use east.ByteArray.Place.{
  block_pos, block_small, at_lt, length-back, get_readable_size_lem, slice-back, in_block-offset,
  length-flat,
}
use east.ByteArray.Reading.{length-remaining}

-- The block of a number, and the bytes that iovecs point to, in order.
abbrev pub nth : ℕ → List Node → Node
nth k [] = []
nth zero (n ∷ ns) = n
nth (suc k) (n ∷ ns) = nth k ns

abbrev pub gather : List Node → List Iovec → List ℕ
gather nodes [] = []
gather nodes (v ∷ vs) = slice (nth v.block nodes) v.at v.len ++ gather nodes vs

nth_of_drop :
    (k : ℕ) (all : List Node) (n : Node) (next : List Node)
    → drop k all ≡ n ∷ next
    → (nth k all ≡ n) × (drop (suc k) all ≡ next)
nth_of_drop zero [] n next e = cc
nth_of_drop zero (m ∷ ms) n next e = (cc, cc)
nth_of_drop (suc k) [] n next e = cc
nth_of_drop (suc k) (m ∷ ms) n next e = nth_of_drop k ms n next e

take-min : (n : ℕ) (xs : List ℕ) → take (min n (length xs)) xs ≡ take n xs
take-min n xs = elim (dec_le n (length xs)) [
  | yes h ↦ ap (λ k. take k xs) (omega arith)
  | no h ↦
      ap (λ k. take k xs) {y = length xs} (omega arith)
      ∙ take-all (length xs) xs (omega arith)
      ∙ sym (take-all n xs (omega arith))
]

-- The walk over the blocks from number `k` on.
record Covers (all : List Node) (k at len : ℕ) (from : List Node) : Type 0 where
  buffers : List Iovec
  runs : buffers_loop k at len from ≡ ok buffers
  covers : gather all buffers ≡ slice (concat from) at len

module _ (all : List Node) (bs : ℕ) (small : bs < 2 ^ 64) where
  buffers_loop-Covers :
      (from : List Node) (k at len : ℕ)
      → Uniform bs from
      → drop k all ≡ from
      → at < bs
      → 1 ≤ len
      → len < 2 ^ 64
      → at + len ≤ length (concat from)
      → Covers all k at len from
  unfolding buffers_loop
  buffers_loop-Covers [] k at len u e h pos fits enough = absurd (omega arith)
  buffers_loop-Covers (n ∷ next) k at len u e h pos fits enough = elim (dec_le (at + len) bs) [
    | yes inside ↦ record {
      buffers = record { block = k; at = at; len = len } ∷ [];
      runs = rw (room, le→leb len (bs - at) (omega arith));
      covers =
          append-nil _ ∙ rw (this.0) (sym (slice-append_left n (concat next) at len (omega arith)));
    }
    | no beyond ↦
        let rest : Covers all (suc k) 0 (len - (bs - at)) next =
          buffers_loop-Covers next (suc k) 0 (len - (bs - at)) u.1 this.1 (omega arith)
            (omega arith) (omega arith) (omega (arith, length-append n (concat next))) in
        record {
          buffers = record { block = k; at = at; len = bs - at } ∷ rest.buffers;
          runs = rw (
            room,
            lt→leb-false len (bs - at) (omega arith),
            sub64-no_wrap len (bs - at) (omega arith) fits,
            rest.runs,
          );
          covers =
              rw (this.0, rest.covers)
                (sym (
                  slice-append_across n (concat next) at (bs - at) len (omega arith)
                    (omega arith)));
        }
  ]
    where
      this : (nth k all ≡ n) × (drop (suc k) all ≡ next)
      this = nth_of_drop k all n next e

      room : sub64 (length n) at ≡ bs - at
      room = omega (arith, sub64-no_wrap (length n) at (omega arith) (omega arith))

-- The iovecs of the readable bytes cover, in order, exactly the bytes from the position on, as many
-- as were asked for or as there are; their number is what is returned.
pub readable_buffers-gather :
    (b : ByteArray) (len : ℕ)
    → IsValid b
    → len < 2 ^ 64
    → (buffers : List Iovec) × (get_readable_buffers len b
        ≡ ok (buffers, min len (b.size - b.offset)))
      × (gather b.nodes buffers ≡ take len (remaining b))
unfolding get_readable_buffers
readable_buffers-gather b len v fits = elim (ℕ_discrete size 0) [
  | yes none_left ↦
      ([], rw (clamped, none_left) refl, ap (λ k. take k (remaining b)) (sym none_left) ∙ as_many)
  | no some_left ↦ (
    (found (omega arith)).buffers,
    rw (clamped, pos-ne_zero size (omega arith), in_block-offset b v, (found (omega arith)).runs),
    (found (omega arith)).covers
        ∙ slice-back b v size
        ∙ sym (
            slice-take (concat b.nodes) b.size b.offset size (omega (arith, v.offset_le))
              (omega (arith, length-flat b v, v.size_le)))
        ∙ as_many,
  )
]
  where
    size : ℕ
    size = min len (b.size - b.offset)

    clamped : clamp_readable b len ≡ size
    clamped = rw (get_readable_size_lem b v) (ground arith)

    as_many : take size (remaining b) ≡ take len (remaining b)
    as_many =
        ap (λ k. take (min len k) (remaining b)) (sym (length-remaining b v))
        ∙ take-min len (remaining b)

    found : 1 ≤ size → Covers b.nodes b.cur (block_pos b) size (drop b.cur b.nodes)
    found h =
        buffers_loop-Covers b.nodes b.block_size (block_small b v) (drop b.cur b.nodes) b.cur
          (block_pos b) size (Uniform-drop b.block_size b.cur b.nodes v.uniform) refl (at_lt b v) h
          (omega arith) (omega (arith, length-back b v, v.size_le, v.from_cur, v.offset_le))
