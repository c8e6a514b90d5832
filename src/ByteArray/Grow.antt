-- ===== src/ByteArray/Grow.antt =====
-- `addCapacity`: the new blocks, and that there are enough of them.
use mathlib.Core.List.{append_assoc, append-nil}
use native.Mathlib.Decide.{dec_le, ℕ_discrete}
use native.Mathlib.Nat.{
  lt-div-mul-add, div-mul-le_self, div-le_of_le-mul, le_of_mul-le-mul_right, lt_of_mul-lt-mul_right,
}
use east.Common.{
  false, ℕ, zero, suc, ◌+◌, ◌-◌, ◌*◌, ◌/◌, ◌%◌, ◌^◌, ◌≤◌, ◌<◌, ◌≡◌, refl, sym, ap, ◌∙◌, List, [],
  ◌∷◌, ◌++◌, length, concat, replicate, length-append, length-replicate, arith, le→leb,
  lt→leb-false, if◌then◌else◌, ◌==◌, ok,
}
use east.Common.Words.{add64-no_wrap, sub64-no_wrap}
use east.ByteArray.{
  ByteArray, Node, uninit, new_node, grow, grow_by, add_capacity, get_writeable_capacity,
}
use east.ByteArray.Blocks.{Uniform, Uniform-append, concat-append}
use east.ByteArray.Valid.{IsValid}

Uniform-new : (bs count : ℕ) → Uniform bs (replicate count (new_node bs))
Uniform-new bs zero = tt
Uniform-new bs (suc count) = (length-replicate bs uninit, Uniform-new bs count)

grow_lem :
    (count bs : ℕ) (nodes : List Node) (capacity : ℕ)
    → capacity + count * bs < 2 ^ 64
    → grow count bs nodes capacity ≡ (nodes ++ replicate count (new_node bs), capacity + count * bs)
unfolding grow
grow_lem zero bs nodes capacity h = ground (arith, append-nil nodes)
grow_lem (suc count) bs nodes capacity h = ground (
  arith,
  add64-no_wrap capacity bs,
  grow_lem count bs (nodes ++ (new_node bs ∷ [])) (capacity + bs) (omega arith),
  append_assoc nodes (new_node bs ∷ []) (replicate count (new_node bs)),
)

-- The quotient rounded up: enough blocks, less than one too many, and no more than bytes.
ceil_bounds :
    (d bs : ℕ)
    → 1 ≤ d
    → 1 ≤ bs
    → (d ≤ (d + bs - 1) / bs * bs) × ((d + bs - 1) / bs * bs < d + bs) × ((d + bs - 1) / bs ≤ d)
ceil_bounds d bs h k = (
  omega (arith, lt-div-mul-add {a = d + bs - 1} {b = bs} k),
  omega (arith, div-mul-le_self (d + bs - 1) bs),
  div-le_of_le-mul bs (product d bs h k),
)
  where
    product : (a c : ℕ) → 1 ≤ a → 1 ≤ c → a + c - 1 ≤ c * a
    product zero c p q = absurd (omega arith)
    product (suc a) zero p q = absurd (omega arith)
    product (suc a) (suc c) p q = omega arith

-- What `addCapacity(n)` guarantees: room for `n` bytes from the position on, and the old bytes.
pub record Grown (b : ByteArray) (n : ℕ) : Type 0 where
  pub result : ByteArray
  pub junk : List ℕ
  pub runs : add_capacity n b ≡ ok result
  pub valid : IsValid result
  pub enough : b.offset + n ≤ result.capacity
  pub flat : concat result.nodes ≡ concat b.nodes ++ junk
  pub same_offset : result.offset ≡ b.offset
  pub same_size : result.size ≡ b.size
  pub same_block_size : result.block_size ≡ b.block_size
  pub same_endian : result.endian ≡ b.endian

module _ (b : ByteArray) (v : IsValid b) (n : ℕ) (n_pos : 1 ≤ n) (n_int : n < 2 ^ 31)
    (room : b.offset + n + b.block_size < 2 ^ 64) where
  free : get_writeable_capacity b ≡ b.capacity - b.offset
  unfolding get_writeable_capacity
  free = sub64-no_wrap b.capacity b.offset (omega (arith, v.offset_le, v.size_le)) v.fits

  n_ne_zero : (n == 0) ≡ false
  n_ne_zero = ground arith

  already_enough : n ≤ b.capacity - b.offset → Grown b n
  unfolding add_capacity
  already_enough h = record {
    result = b;
    junk = [];
    runs = rw (n_ne_zero, free, le→leb n (b.capacity - b.offset) h);
    valid = v;
    enough = omega (arith, v.offset_le, v.size_le);
    flat = sym (append-nil (concat b.nodes));
    same_offset = refl;
    same_size = refl;
    same_block_size = refl;
    same_endian = refl;
  }

  abbrev quotient : ℕ
  quotient = (n - (b.capacity - b.offset) + b.block_size - 1) / b.block_size

  -- The position at the very end of the last block is that of the first new one.
  abbrev cur' : ℕ
  cur' = if b.capacity - b.offset == 0 then length b.nodes else b.cur

  abbrev grown : ByteArray
  grown = record b {
    nodes = b.nodes ++ replicate quotient (new_node b.block_size);
    capacity = b.capacity + quotient * b.block_size;
    cur = cur';
  }

  module _ (h : b.capacity - b.offset < n) where
    bounds :
        (n - (b.capacity - b.offset) ≤ quotient * b.block_size)
        × (quotient * b.block_size < n - (b.capacity - b.offset) + b.block_size)
        × (quotient ≤ n - (b.capacity - b.offset))
    bounds = ceil_bounds (n - (b.capacity - b.offset)) b.block_size (omega arith) v.nonzero

    same_cur : cur' ≡ b.cur
    same_cur = elim (ℕ_discrete (b.capacity - b.offset) 0) [
      | yes full ↦ ground (arith, last_cur full)
      | no more ↦ ground arith
    ]
      where
        last_cur : b.capacity - b.offset ≡ 0 → length b.nodes ≡ b.cur
        last_cur full = omega (
          arith,
          le_of_mul-le-mul_right {m = b.cur} {n = length b.nodes} {k = b.block_size}
              (omega (arith, v.exact, v.from_cur, v.offset_le, v.size_le)) v.nonzero,
          lt_of_mul-lt-mul_right b.block_size {m = length b.nodes} {n = suc b.cur}
              (omega (arith, v.exact, v.before_next, v.offset_le, v.size_le)),
        )

    grow_by_lem : grow_by quotient (b.capacity - b.offset) b ≡ ok grown
    unfolding grow_by
    grow_by_lem = rw (
      small,
      grow_lem quotient b.block_size b.nodes b.capacity
          (omega (arith, bounds, v.offset_le, v.size_le)),
      lt→leb-false (2 ^ 31) quotient (omega (arith, bounds)),
    )
      where
        small : quotient % 2 ^ 32 ≡ quotient
        small = omega (arith, bounds)

    grown-runs : add_capacity n b ≡ ok grown
    unfolding add_capacity
    grown-runs =
        rw
          (
            n_ne_zero,
            free,
            lt→leb-false n (b.capacity - b.offset) h,
            sub64-no_wrap n (b.capacity - b.offset) (omega arith) (omega arith),
            add64-no_wrap (n - (b.capacity - b.offset)) b.block_size (omega (arith, v.nonzero)),
            sub64-no_wrap (n - (b.capacity - b.offset) + b.block_size) 1 (omega (arith, v.nonzero))
                (omega (arith, v.nonzero)),
            block_ne_zero,
          )
          grow_by_lem
      where
        block_ne_zero : (b.block_size == 0) ≡ false
        block_ne_zero = ground (arith, v.nonzero)

    grown-IsValid : IsValid grown
    grown-IsValid = record {
      nonzero = v.nonzero;
      uniform = Uniform-append b.block_size b.nodes _ v.uniform (Uniform-new b.block_size quotient);
      exact = omega (
        arith,
        v.exact,
        length-append b.nodes (replicate quotient (new_node b.block_size)),
        length-replicate quotient (new_node b.block_size),
        ap (λ (k : ℕ). k * b.block_size)
            (length-append b.nodes (replicate quotient (new_node b.block_size))
              ∙ ap (λ k. length b.nodes + k) (length-replicate quotient (new_node b.block_size))),
      );
      rooted =
          omega
            (arith, v.rooted, length-append b.nodes (replicate quotient (new_node b.block_size)));
      from_cur = rw same_cur v.from_cur;
      before_next = rw same_cur v.before_next;
      offset_le = v.offset_le;
      size_le = omega (arith, v.size_le);
      fits = omega (arith, bounds, v.offset_le, v.size_le, v.fits);
    }

    must_grow : Grown b n
    must_grow = record {
      result = grown;
      junk = concat (replicate quotient (new_node b.block_size));
      runs = grown-runs;
      valid = grown-IsValid;
      enough = omega (arith, bounds, v.offset_le, v.size_le);
      flat = concat-append b.nodes (replicate quotient (new_node b.block_size));
      same_offset = refl;
      same_size = refl;
      same_block_size = refl;
      same_endian = refl;
    }

  pub add_capacity-Grown : Grown b n
  add_capacity-Grown = elim (dec_le n (b.capacity - b.offset)) [
    | yes enough ↦ already_enough enough
    | no short ↦ must_grow (omega arith)
  ]
