-- ===== src/ByteArray/Valid.antt =====
-- When a byte array is well formed, and what the loops over its blocks do then.
use mathlib.Core.Bool.{false}
use native.Mathlib.Decide.{dec_le}
use east.Common.{
  ℕ, suc, ◌+◌, ◌-◌, ◌*◌, ◌^◌, ◌≤◌, ◌<◌, ◌≡◌, refl, sym, ap, ◌∙◌, List, [], ◌∷◌, ◌++◌, length, take,
  drop, concat, length-append, length-take, length-drop, arith, le→leb, lt→leb-false, if◌then◌else◌,
  ◌==◌, ok,
}
use east.Common.Words.{sub64, add64-no_wrap, sub64-no_wrap}
use east.Common.Slices.{
  overwrite, slice, length-overwrite, overwrite-append_left, overwrite-append_across,
  slice-append_left, slice-append_across,
}
use east.ByteArray.{ByteArray, Node, write_loop, read_loop}
use east.ByteArray.Blocks.{Uniform}

-- The position lies in block `cur`, or at the end of the last block, where `m_cur` is null.
pub record IsValid (b : ByteArray) : Type 0 where
  pub nonzero : 1 ≤ b.block_size
  pub uniform : Uniform b.block_size b.nodes
  pub exact : b.capacity ≡ length b.nodes * b.block_size
  pub rooted : 1 ≤ length b.nodes
  pub from_cur : b.cur * b.block_size ≤ b.offset
  pub before_next : b.offset < b.cur * b.block_size + b.block_size
  pub offset_le : b.offset ≤ b.size
  pub size_le : b.size ≤ b.capacity
  pub fits : b.capacity < 2 ^ 64

-- What a walk over blocks of `bs` bytes from position `at` of the first leaves behind.
pub record Wrote (bs at offset : ℕ) (bytes : List ℕ) (from : List Node) : Type 0 where
  pub nodes : List Node
  pub steps : ℕ
  pub runs : write_loop at offset bytes from ≡ ok (nodes, steps, offset + length bytes)
  pub uniform : Uniform bs nodes
  pub same_length : length nodes ≡ length from
  pub flat : concat nodes ≡ overwrite (concat from) at bytes
  pub low : steps * bs ≤ at + length bytes
  pub high : at + length bytes < steps * bs + bs

module _ (bs : ℕ) (pos : 1 ≤ bs) (small : bs < 2 ^ 64) where
  last_block :
      (at offset : ℕ) (bytes : List ℕ) (n : Node) (next : List Node)
      → Uniform bs (n ∷ next)
      → at < bs
      → offset + length bytes < 2 ^ 64
      → at + length bytes ≤ bs
      → Wrote bs at offset bytes (n ∷ next)
  unfolding write_loop
  last_block at offset bytes n next u h fits inside = record {
    nodes = overwrite n at bytes ∷ next;
    steps = if length n == at + length bytes then 1 else 0;
    runs = rw (
      room,
      le→leb (length bytes) (bs - at) (omega arith),
      add64-no_wrap at (length bytes) (omega arith),
      add64-no_wrap offset (length bytes) fits,
    );
    uniform = (omega (arith, length-overwrite n at bytes), u.1);
    same_length = refl;
    flat = sym (overwrite-append_left n (concat next) at bytes (omega arith));
    low = ground arith;
    high = ground arith;
  }
    where
      room : sub64 (length n) at ≡ bs - at
      room = omega (arith, sub64-no_wrap (length n) at (omega arith) (omega arith))

  more_blocks :
      (at offset : ℕ) (bytes : List ℕ) (n : Node) (next : List Node)
      → Uniform bs (n ∷ next)
      → at < bs
      → offset + length bytes < 2 ^ 64
      → bs < at + length bytes
      → Wrote bs 0 (offset + (bs - at)) (drop (bs - at) bytes) next
      → Wrote bs at offset bytes (n ∷ next)
  unfolding write_loop
  more_blocks at offset bytes n next u h fits beyond rest = record {
    nodes = overwrite n at (take (bs - at) bytes) ∷ rest.nodes;
    steps = suc rest.steps;
    runs =
        rw
          (
            room,
            lt→leb-false (length bytes) (bs - at) (omega arith),
            add64-no_wrap offset (bs - at) (omega arith),
            rest.runs,
          )
          (ap (λ o. ok (overwrite n at (take (bs - at) bytes) ∷ rest.nodes, suc rest.steps, o))
            (omega (arith, length-drop (bs - at) bytes)));
    uniform = (
      omega (arith, length-overwrite n at (take (bs - at) bytes), length-take (bs - at) bytes),
      rest.uniform,
    );
    same_length = ap suc rest.same_length;
    flat =
        ap (λ l. overwrite n at (take (bs - at) bytes) ++ l) rest.flat
        ∙ sym (
            overwrite-append_across n (concat next) at (bs - at) bytes (omega arith) (omega arith));
    low = omega (arith, rest.low, length-drop (bs - at) bytes);
    high = omega (arith, rest.high, length-drop (bs - at) bytes);
  }
    where
      room : sub64 (length n) at ≡ bs - at
      room = omega (arith, sub64-no_wrap (length n) at (omega arith) (omega arith))

  pub write_loop-Wrote :
      (from : List Node) (at offset : ℕ) (bytes : List ℕ)
      → Uniform bs from
      → at < bs
      → 1 ≤ length bytes
      → at + length bytes ≤ length (concat from)
      → offset + length bytes < 2 ^ 64
      → Wrote bs at offset bytes from
  write_loop-Wrote [] at offset bytes u h some_bytes room fits = absurd (omega arith)
  write_loop-Wrote (n ∷ next) at offset bytes u h some_bytes room fits =
      elim (dec_le (at + length bytes) bs) [
        | yes inside ↦ last_block at offset bytes n next u h fits inside
        | no beyond ↦ more_blocks at offset bytes n next u h fits (omega arith) (
            write_loop-Wrote next 0 (offset + (bs - at)) (drop (bs - at) bytes) u.1 (omega arith)
              (omega (arith, length-drop (bs - at) bytes))
              (omega (arith, length-drop (bs - at) bytes, length-append n (concat next)))
              (omega (arith, length-drop (bs - at) bytes)))
      ]

-- The same for `read_loop`.
pub record Copied (bs at offset n : ℕ) (from : List Node) : Type 0 where
  pub steps : ℕ
  pub runs : read_loop at offset n from ≡ ok (slice (concat from) at n, steps, offset + n)
  pub low : steps * bs ≤ at + n
  pub high : at + n < steps * bs + bs

module _ (bs : ℕ) (pos : 1 ≤ bs) (small : bs < 2 ^ 64) where
  pub read_loop-Copied :
      (from : List Node) (at offset n : ℕ)
      → Uniform bs from
      → at < bs
      → 1 ≤ n
      → at + n ≤ length (concat from)
      → offset + n < 2 ^ 64
      → Copied bs at offset n from
  unfolding read_loop
  read_loop-Copied [] at offset n u h some_bytes enough fits = absurd (omega arith)
  read_loop-Copied (b ∷ next) at offset n u h some_bytes enough fits = elim (dec_le (at + n) bs) [
    | yes inside ↦ record {
      steps = if at + n == length b then 1 else 0;
      runs = rw (
        room,
        ne_zero,
        le→leb n (bs - at) (omega arith),
        add64-no_wrap at n (omega arith),
        add64-no_wrap offset n fits,
        slice-append_left b (concat next) at n (omega arith),
      );
      low = ground arith;
      high = ground arith;
    }
    | no beyond ↦
        let rest : Copied bs 0 (offset + (bs - at)) (n - (bs - at)) next =
          read_loop-Copied next 0 (offset + (bs - at)) (n - (bs - at)) u.1 (omega arith)
            (omega arith) (omega (arith, length-append b (concat next))) (omega arith) in
        record {
          steps = suc rest.steps;
          runs =
              rw
                (
                  room,
                  ne_zero,
                  lt→leb-false n (bs - at) (omega arith),
                  add64-no_wrap offset (bs - at) (omega arith),
                  sub64-no_wrap n (bs - at) (omega arith) (omega arith),
                  rest.runs,
                  slice-append_across b (concat next) at (bs - at) n (omega arith) (omega arith),
                )
                (ap
                  (λ o. ok (
                    slice b at (bs - at) ++ slice (concat next) 0 (n - (bs - at)),
                    suc rest.steps,
                    o,
                  ))
                  (omega arith));
          low = omega (arith, rest.low);
          high = omega (arith, rest.high);
        }
  ]
    where
      room : sub64 (length b) at ≡ bs - at
      room = omega (arith, sub64-no_wrap (length b) at (omega arith) (omega arith))

      ne_zero : (n == 0) ≡ false
      ne_zero = ground arith
