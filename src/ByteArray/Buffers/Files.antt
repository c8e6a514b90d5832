-- ===== src/ByteArray/Buffers/Files.antt =====
-- Files: what is written out, and what loading one does.
use native.Mathlib.Decide.{dec_le, dec_lt}
use native.Mathlib.Nat.{mod-lt, div-add-mod', mod-eq_of_lt, add-mul-mod_self_right}
use mathlib.Core.Path.{subst}
use mathlib.Core.List.{append-nil}
use east.Common.{
  ℕ, zero, suc, ◌+◌, ◌-◌, ◌*◌, ◌/◌, ◌%◌, ◌^◌, ◌≤◌, ◌<◌, ◌≡◌, refl, sym, ap, ◌∙◌, List, [], ◌∷◌,
  length, take, drop, concat, arith, ok, ◌>>=◌, lt→ltb, le→ltb-false, pos-ne_zero, length-append,
  length-take, length-drop, false, true, Bool, take-append-drop, take-all, Outcome,
}
use east.Common.Slices.{slice, slice-append_left, slice-append_across, slice-take}
use east.ByteArray.{ByteArray, Node, write}
use east.ByteArray.Blocks.{Uniform, Uniform-drop}
use east.ByteArray.Valid.{IsValid}
use east.ByteArray.Tape
use east.ByteArray.Tape.{contents, remaining, view}
use east.ByteArray.Place.{
  block_pos, length-back, get_readable_size_lem, slice-back, length-flat, mod-block_pos,
}
use east.ByteArray.Refine.{Stores, write-Writes}
use east.ByteArray.Reading.{length-remaining}
use east.ByteArray.Writing.{Stores-then}
use east.ByteArray.Buffers.{file_loop, write_to_file, load_loop, read_from_file}

file_loop-done : (bs offset : ℕ) (from : List Node) → file_loop bs offset 0 from ≡ ok []
unfolding file_loop
file_loop-done bs offset [] = refl
file_loop-done bs offset (n ∷ next) = refl

-- The next position, behind the end of a block.
next_block : (bs offset : ℕ) → 1 ≤ bs → (offset + (bs - offset % bs)) % bs ≡ 0
next_block bs offset pos =
    ap (λ (x : ℕ). x % bs) {y = 0 + (offset / bs + 1) * bs}
      (omega (arith, div-add-mod' offset bs, mod-lt offset pos))
    ∙ add-mul-mod_self_right 0 (offset / bs + 1) bs
    ∙ mod-eq_of_lt pos

-- From a position in the first block the stream gets the flat bytes.
file_loop-slice :
    (bs : ℕ) (from : List Node) (offset size : ℕ)
    → 1 ≤ bs
    → Uniform bs from
    → offset % bs + size ≤ length (concat from)
    → file_loop bs offset size from ≡ ok (slice (concat from) (offset % bs) size)
unfolding file_loop
file_loop-slice bs [] offset zero pos u enough = refl
file_loop-slice bs [] offset (suc size) pos u enough = absurd (omega arith)
file_loop-slice bs (n ∷ next) offset zero pos u enough = refl
file_loop-slice bs (n ∷ next) offset (suc size) pos u enough =
    elim (dec_le (suc size + offset % bs) bs) [
      | yes inside ↦
          rw
            (
              pos-ne_zero (suc size) (omega arith),
              pos-ne_zero bs pos,
              le→ltb-false bs (suc size + offset % bs) inside,
              nothing_left,
              file_loop-done bs (offset + suc size) next,
              append-nil,
            )
            (ap ok (sym (slice-append_left n (concat next) (offset % bs) (suc size) (omega arith))))
      | no beyond ↦
          rw
            (
              pos-ne_zero (suc size) (omega arith),
              pos-ne_zero bs pos,
              lt→ltb bs (suc size + offset % bs) (omega arith),
              file_loop-slice bs next (offset + (bs - offset % bs)) (suc size - (bs - offset % bs))
                  pos u.1
                  (omega (
                    arith,
                    next_block bs offset pos,
                    length-append n (concat next),
                    mod-lt offset pos,
                  )),
              next_block bs offset pos,
            )
            (ap ok (
              sym (
                slice-append_across n (concat next) (offset % bs) (bs - offset % bs) (suc size)
                  (omega (arith, mod-lt offset pos)) (omega arith))))
    ]
  where
    nothing_left : suc size - suc size ≡ 0
    nothing_left = omega arith

-- An opened file gets exactly the bytes from the position on.
pub write_to_file_lem : (b : ByteArray) → IsValid b → write_to_file true b ≡ ok (true, remaining b)
unfolding write_to_file
write_to_file_lem b v =
    rw (get_readable_size_lem b v) (ap (λ o. o >>= λ bytes. ok (true, bytes)) all)
  where
    size : ℕ
    size = b.size - b.offset

    all : file_loop b.block_size b.offset size (drop b.cur b.nodes) ≡ ok (remaining b)
    all =
        file_loop-slice b.block_size (drop b.cur b.nodes) b.offset size v.nonzero
          (Uniform-drop b.block_size b.cur b.nodes v.uniform)
          (omega (arith, at_block, length-back b v, v.size_le, v.from_cur, v.offset_le))
        ∙ ap ok (
            ap (λ k. slice (concat (drop b.cur b.nodes)) k size) at_block
            ∙ slice-back b v size
            ∙ sym (
                slice-take (concat b.nodes) b.size b.offset size (omega (arith, v.offset_le))
                  (omega (arith, length-flat b v, v.size_le)))
            ∙ take-all size (remaining b) (omega (arith, length-remaining b v)))
      where
        at_block : b.offset % b.block_size ≡ block_pos b
        at_block = mod-block_pos b v

load_loop-Stores :
    (rounds bs : ℕ) (content : List ℕ) (b : ByteArray)
    → IsValid b
    → 1 ≤ bs
    → b.block_size ≡ bs
    → length content < rounds
    → length content < 2 ^ 31
    → b.offset + length content + bs < 2 ^ 64
    → Stores (load_loop rounds bs content) b content
unfolding load_loop
load_loop-Stores zero bs content b v pos same fuel int room = absurd (omega arith)
load_loop-Stores (suc rounds) bs content b v pos same fuel int room =
    elim (dec_lt (length content) bs) [
      | yes last ↦
          subst (λ c. Stores (λ s. write (take bs content) s >>= round c) b content)
            (sym (lt→ltb (length content) bs last)) (last_round last)
      | no more ↦
          subst (λ c. Stores (λ s. write (take bs content) s >>= round c) b content)
            (sym (le→ltb-false (length content) bs (omega arith)))
            (subst (Stores (λ s. write (take bs content) s >>= round false) b)
              (take-append-drop bs content)
              (Stores-then (write (take bs content)) (round false) b (take bs content)
                (drop bs content) v
                (write-Writes b v (take bs content) (omega (arith, length-take bs content))
                  (omega (arith, length-take bs content)))
                (λ r vr at size.
                  load_loop-Stores rounds bs (drop bs content) r vr pos (size ∙ same)
                    (omega (arith, length-drop bs content)) (omega (arith, length-drop bs content))
                    (omega (arith, at, length-take bs content, length-drop bs content)))))
    ]
  where
    round : Bool → ByteArray → Outcome ByteArray
    round c b' = elim c [ true ↦ ok b' | false ↦ load_loop rounds bs (drop bs content) b' ]

    last_round : length content < bs → Stores (λ s. write (take bs content) s >>= ok) b content
    last_round h =
        subst (λ l. Stores (λ s. write l s >>= ok) b content)
          (sym (take-all bs content (omega arith)))
          (record {
            result = w.result;
            runs = rw w.runs;
            valid = w.valid;
            tape = w.tape;
            same_block_size = w.same_block_size;
            same_endian = w.same_endian;
          })
      where
        w : Stores (write content) b content
        w = write-Writes b v content int (omega (arith, same))

-- Loading a file of less than 2 ^ 31 bytes ends, and writes the whole of it at the position.
pub read_from_file_lem :
    (b : ByteArray) (content : List ℕ)
    → IsValid b
    → length content < 2 ^ 31
    → b.offset + length content + b.block_size < 2 ^ 64
    → (result : ByteArray) × (read_from_file true content b ≡ ok (true, result))
      × IsValid result
      × (view result ≡ Tape.write content (view b))
unfolding read_from_file
read_from_file_lem b content v int room = (s.result, rw s.runs, s.valid, s.tape)
  where
    s : Stores (load_loop (suc (length content)) b.block_size content) b content
    s =
        load_loop-Stores (suc (length content)) b.block_size content b v v.nonzero refl
          (omega arith) int room
