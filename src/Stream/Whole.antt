-- ===== src/Stream/Whole.antt =====
-- What `readFixSize` of East/src/Stream.cc reads.
use east.Common.{
  ℕ, zero, suc, ◌+◌, ◌-◌, ◌^◌, ◌%◌, ◌≤◌, min, ◌≡◌, refl, sym, ap, ◌∙◌, arith, List, [], ◌∷◌, ◌++◌,
  length, take, drop, All, pos-ne_zero, length-take, length-drop, drop-drop, take-all,
}
use east.Stream.{
  Channel, Fixed, minus_one, stopped, and_more, fixed_loop, to_int, read_fix_size, write_fix_size,
}

-- Enough reads follow, each of which may give a byte, and enough bytes.
pub record Delivers (len : ℕ) (c : Channel) : Type 0 where
  pub positive : All (λ size. 1 ≤ size) c.sizes
  pub reads : len ≤ length c.sizes
  pub bytes : len ≤ length c.input

-- The `int` that is returned, and `len` bytes in order, with the others still to come.
pub record Reads (value len : ℕ) (input : List ℕ) (f : Fixed) : Type 0 where
  pub result : f.result ≡ value
  pub got : f.got ≡ take len input
  pub rest : f.channel.input ≡ drop len input

take-nil : (n : ℕ) → take {A = ℕ} n [] ≡ []
take-nil zero = refl
take-nil (suc n) = refl

take_split : (j n : ℕ) (xs : List ℕ) → take j xs ++ take n (drop j xs) ≡ take (j + n) xs
take_split zero n xs = ap (λ k. take k xs) (omega arith)
take_split (suc j) n [] = take-nil n ∙ sym (take-nil (suc j + n))
take_split (suc j) n (x ∷ xs) =
    ap (λ l. x ∷ l) (take_split j n xs) ∙ ap (λ k. take k (x ∷ xs)) (add_suc j n)
  where
    add_suc : (j n : ℕ) → suc (j + n) ≡ suc j + n
    add_suc j n = omega arith

-- A read of `suc j` bytes, and then the rest.
one_read :
    (result j left b : ℕ) (input : List ℕ) (failed later : Fixed)
    → j ≤ left
    → Reads result (left - j) (drop j input) later
    → Reads result (suc left) (b ∷ input) (and_more (b ∷ take j input) failed later)
one_read result j left b input failed later h r = record {
  result = r.result;
  got =
      ap (λ l. (b ∷ take j input) ++ l) r.got
      ∙ ap (λ l. b ∷ l) (take_split j (left - j) input ∙ ap (λ k. take k input) (omega arith));
  rest = r.rest ∙ drop-drop (left - j) j input ∙ ap (λ k. drop k input) (omega arith);
}

min-suc : (a b : ℕ) → min (suc a) (suc b) ≡ suc (min a b)
min-suc a b = omega arith

fixed_lem :
    (result : ℕ) (sizes : List ℕ) (left : ℕ) (input : List ℕ)
    → All (λ size. 1 ≤ size) sizes
    → left ≤ length sizes
    → left ≤ length input
    → Reads result left input (fixed_loop result sizes left input)
fixed_lem result [] zero input p r b = record { result = refl; got = refl; rest = refl }
fixed_lem result [] (suc left) input p r b = absurd (omega arith)
fixed_lem result (size ∷ sizes) zero input p r b = record { result = refl; got = refl; rest = refl }
fixed_lem result (zero ∷ sizes) (suc left) input (q, p) r b = absurd (omega arith)
fixed_lem result (suc size ∷ sizes) (suc left) [] (q, p) r b = absurd (omega arith)
fixed_lem result (suc size ∷ sizes) (suc left) (x ∷ input) (q, p) r b =
    rw (pos-ne_zero (suc left) (omega arith), min-suc size left, less_left)
      (one_read result (min size left) left x input (stopped minus_one sizes (x ∷ input))
        (fixed_loop result sizes (left - min size left) (drop (min size left) input)) (omega arith)
        (fixed_lem result sizes (left - min size left) (drop (min size left) input) p (omega arith)
          (omega (arith, length-drop (min size left) input))))
  where
    less_left : suc left - suc (length (take (min size left) input)) ≡ left - min size left
    less_left = omega (arith, length-take (min size left) input)

-- `readFixSize` puts the `len` bytes that were asked for into the buffer, in order and no more, whatever the way the
-- reads break them up: it is enough that each gives a byte, that there are as many as bytes, and that so many bytes come. What it returns is the
-- low 32 bits of `len` as an `int`, which is `len` itself only below 2 ^ 31.
pub read_fix_size_lem :
    (len : ℕ) (c : Channel)
    → Delivers len c
    → Reads (len % 2 ^ 32) len c.input (read_fix_size len c)
unfolding read_fix_size to_int
read_fix_size_lem len c d = fixed_lem (len % 2 ^ 32) c.sizes len c.input d.positive d.reads d.bytes

-- `writeFixSize` sends all bytes of the buffer, in order, if each write takes a byte and there are as many as bytes, and
-- returns the low 32 bits of their number.
pub write_fix_size_lem :
    (buffer sizes : List ℕ)
    → All (λ size. 1 ≤ size) sizes
    → length buffer ≤ length sizes
    → ((write_fix_size buffer sizes).result ≡ length buffer % 2 ^ 32)
      × ((write_fix_size buffer sizes).got ≡ buffer)
unfolding write_fix_size to_int
write_fix_size_lem buffer sizes p r =
    let f = fixed_lem (length buffer % 2 ^ 32) sizes (length buffer) buffer p r (omega arith) in
    (f.result, f.got ∙ take-all (length buffer) buffer (omega arith))
