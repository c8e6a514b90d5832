-- ===== src/ByteArray/Seek.antt =====
-- `setOffset` and `clear`, and the array that the constructor makes.
use native.Mathlib.Decide.{dec_le}
use native.Mathlib.Nat.{mul-le-mul_right}
use east.Common.{
  ℕ, suc, ◌+◌, ◌-◌, ◌*◌, ◌^◌, ◌≤◌, ◌<◌, ◌≡◌, refl, sym, ap, ◌∙◌, List, [], ◌∷◌, length, concat,
  length-append, length-replicate, arith, le→leb, lt→leb-false, ltb, if◌then◌else◌, ◌==◌, ok, false,
  le→ltb-false, lt→ltb, throws, out_of_range, undefined,
}
use east.Common.Words.{sub64-no_wrap}
use east.ByteArray.{ByteArray, Node, seek_loop, set_offset, clear, init, uninit}
use east.ByteArray.Blocks.{Uniform, length-concat}
use east.ByteArray.Valid.{IsValid}
use east.ByteArray.Tape.{contents}

-- Where the loop stops.
record Sought (bs offset : ℕ) (nodes : List Node) : Type 0 where
  steps : ℕ
  runs : seek_loop offset nodes ≡ ok steps
  low : steps * bs ≤ offset
  high : offset < steps * bs + bs

module _ (bs : ℕ) where
  seek_loop-Sought :
      (nodes : List Node) (offset : ℕ)
      → Uniform bs nodes
      → offset < length (concat nodes)
      → offset < 2 ^ 64
      → Sought bs offset nodes
  unfolding seek_loop
  seek_loop-Sought [] offset u h fits = absurd (omega arith)
  seek_loop-Sought (n ∷ next) offset u h fits = elim (dec_le bs offset) [
    | yes past ↦
        let rest : Sought bs (offset - bs) next =
          seek_loop-Sought next (offset - bs) u.1 (omega (arith, length-append n (concat next)))
            (omega arith) in
        record {
          steps = suc rest.steps;
          runs = rw (u.0, le→leb bs offset past, sub64-no_wrap offset bs past fits, rest.runs);
          low = omega (arith, rest.low);
          high = omega (arith, rest.high);
        }
    | no inside ↦ record {
      steps = 0;
      runs = rw (u.0, lt→leb-false bs offset (omega arith), ne bs offset (omega arith));
      low = omega arith;
      high = omega arith;
    }
  ]
    where
      ne : (bs offset : ℕ) → offset < bs → (offset == bs) ≡ false
      ne bs offset h = ground arith

  -- At the end of the chain or past it the walk reads a null pointer.
  seek_loop_beyond :
      (nodes : List Node) (offset : ℕ)
      → Uniform bs nodes
      → length (concat nodes) ≤ offset
      → offset < 2 ^ 64
      → seek_loop offset nodes ≡ throws undefined
  unfolding seek_loop
  seek_loop_beyond [] offset u h fits = refl
  seek_loop_beyond (n ∷ next) offset u h fits = rw (
    u.0,
    le→leb bs offset (omega (arith, length-append n (concat next))),
    sub64-no_wrap offset bs (omega (arith, length-append n (concat next))) fits,
    seek_loop_beyond next (offset - bs) u.1 (omega (arith, length-append n (concat next)))
        (omega arith),
  )

abbrev pub max_size : ByteArray → ℕ → ℕ
max_size b offset = if ltb b.size offset then offset else b.size

-- A seek inside the capacity.
pub record Seeks (b : ByteArray) (offset : ℕ) : Type 0 where
  pub cur : ℕ
  pub runs :
      set_offset offset b ≡ ok (record b { offset = offset; size = max_size b offset; cur = cur })
  pub valid : IsValid (record b { offset = offset; size = max_size b offset; cur = cur })

module _ (b : ByteArray) (v : IsValid b) (offset : ℕ) where
  length-flat : length (concat b.nodes) ≡ b.capacity
  length-flat = length-concat b.block_size b.nodes v.uniform ∙ sym v.exact

  pub set_offset-Seeks : offset < b.capacity → Seeks b offset
  unfolding set_offset
  set_offset-Seeks h = record {
    cur = found.steps;
    runs = rw (le→ltb-false b.capacity offset (omega arith), found.runs);
    valid = record {
      nonzero = v.nonzero;
      uniform = v.uniform;
      exact = v.exact;
      rooted = v.rooted;
      from_cur = found.low;
      before_next = found.high;
      offset_le = ground arith;
      size_le = ground (arith, v.size_le);
      fits = v.fits;
    };
  }
    where
      found : Sought b.block_size offset b.nodes
      found =
          seek_loop-Sought b.block_size b.nodes offset v.uniform (omega (arith, length-flat))
            (omega (arith, v.fits))

  pub set_offset_end : offset ≡ b.capacity → set_offset offset b ≡ throws undefined
  unfolding set_offset
  set_offset_end h = rw (
    le→ltb-false b.capacity offset (omega arith),
    seek_loop_beyond b.block_size b.nodes offset v.uniform (omega (arith, length-flat))
        (omega (arith, v.fits)),
  )

  pub set_offset_beyond : b.capacity < offset → set_offset offset b ≡ throws out_of_range
  unfolding set_offset
  set_offset_beyond h = rw (lt→ltb b.capacity offset h)

pub init-IsValid : (bs : ℕ) → 1 ≤ bs → bs < 2 ^ 64 → IsValid (init bs)
unfolding init
init-IsValid bs h k = record {
  nonzero = h;
  uniform = (length-replicate bs uninit, tt);
  exact = omega arith;
  rooted = omega arith;
  from_cur = omega arith;
  before_next = omega arith;
  offset_le = omega arith;
  size_le = omega arith;
  fits = k;
}

-- What `clear` leaves: an empty array of one block.
pub record Cleared (b : ByteArray) : Type 0 where
  pub result : ByteArray
  pub runs : clear b ≡ ok result
  pub valid : IsValid result
  pub empty : contents result ≡ []
  pub at_start : result.offset ≡ 0

pub clear-Cleared : (b : ByteArray) → IsValid b → Cleared b
unfolding clear
clear-Cleared b v = go b.nodes refl
  where
    go : (nodes : List Node) → b.nodes ≡ nodes → Cleared b
    go [] e = absurd (omega (arith, v.rooted, ap length e))
    go (root ∷ rest) e = record {
      result = record b {
        offset = 0;
        size = 0;
        capacity = b.block_size;
        nodes = root ∷ [];
        cur = 0;
      };
      runs = rw (e, clear);
      valid = record {
        nonzero = v.nonzero;
        uniform = (all_uniform.0, tt);
        exact = omega arith;
        rooted = omega arith;
        from_cur = omega arith;
        before_next = omega (arith, v.nonzero);
        offset_le = omega arith;
        size_le = omega arith;
        fits = omega (arith, mul-le-mul_right b.block_size v.rooted, v.exact, v.fits);
      };
      empty = refl;
      at_start = refl;
    }
      where
        all_uniform : Uniform b.block_size (root ∷ rest)
        all_uniform = rw e at v.uniform
