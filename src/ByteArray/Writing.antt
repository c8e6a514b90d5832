-- ===== src/ByteArray/Writing.antt =====
-- Members that write: one behind another, and a position that is gone back to and read from.
use mathlib.Core.Path.{ap₂, subst}
use mathlib.Core.List.{append_assoc}
use east.Common.{
  ℕ, ◌+◌, ◌≤◌, ◌≡◌, sym, ap, ◌∙◌, List, ◌++◌, length, take, drop, length-append, length-take,
  drop-append, concat, drop-drop, arith, Outcome, ok, ◌>>=◌, le→ltb-false,
}
use east.Common.Slices.{overwrite, overwrite-append_right}
use east.ByteArray.{ByteArray, set_offset}
use east.ByteArray.Valid.{IsValid}
use east.ByteArray.Tape
use east.ByteArray.Tape.{Tape, contents, view, remaining}
use east.ByteArray.Place.{length-contents}
use east.ByteArray.Refine.{moved_to, Stores}
use east.ByteArray.Seek.{Seeks, set_offset-Seeks, max_size}
use east.ByteArray.Reading.{Yields, drop-contents}

drop-append_at : (xs ys : List ℕ) (k : ℕ) → length xs ≡ k → drop k (xs ++ ys) ≡ ys
drop-append_at xs ys k h =
    ap (λ m. drop m (xs ++ ys)) {y = length xs + 0} (omega arith) ∙ drop-append xs ys 0

-- One writer behind another.
overwrite_twice :
    (xs : List ℕ) (at : ℕ) (front back : List ℕ)
    → at ≤ length xs
    → overwrite (overwrite xs at front) (at + length front) back ≡ overwrite xs at (front ++ back)
overwrite_twice xs at front back h =
    ap₂ (λ l k. overwrite l k back) (sym (append_assoc (take at xs) front _)) (omega (arith, long))
    ∙ overwrite-append_right (take at xs ++ front) (drop (at + length front) xs) 0 back
    ∙ append_assoc (take at xs) front _
    ∙ ap (λ l. take at xs ++ l)
        (sym (append_assoc front back _)
          ∙ ap (λ l. (front ++ back) ++ l)
              (drop-drop (0 + length back) (at + length front) xs
                ∙ ap (λ k. drop k xs) (omega (arith, length-append front back))))
  where
    long : length (take at xs ++ front) ≡ at + length front
    long = omega (arith, length-append (take at xs) front, length-take at xs)

pub Stores-then :
    (f g : ByteArray → Outcome ByteArray) (b : ByteArray) (front behind : List ℕ)
    → IsValid b
    → Stores f b front
    → ((r : ByteArray)
        → IsValid r
        → r.offset ≡ b.offset + length front
        → r.block_size ≡ b.block_size
        → Stores g r behind)
    → Stores (λ s. f s >>= g) b (front ++ behind)
unfolding Tape.write
Stores-then f g b front behind v first second = record {
  result = next.result;
  runs = rw first.runs next.runs;
  valid = next.valid;
  tape = next.tape ∙ ap (Tape.write behind) first.tape ∙ λ i. record {
    bytes = overwrite_twice (contents b) b.offset front behind before_end i;
    pos = same_pos i;
  };
  same_block_size = next.same_block_size ∙ first.same_block_size;
  same_endian = next.same_endian ∙ first.same_endian;
}
  where
    next : Stores g first.result behind
    next =
        second first.result first.valid (ap (λ (t : Tape). t.pos) first.tape) first.same_block_size

    before_end : b.offset ≤ length (contents b)
    before_end = omega (arith, length-contents b v, v.offset_le)

    same_pos : b.offset + length front + length behind ≡ b.offset + length (front ++ behind)
    same_pos = omega (arith, length-append front behind)

abbrev pub viewed {ℓ} : {A : Type ℓ} → Outcome (A × ByteArray) → Outcome (A × Tape)
viewed o = o >>= λ r. ok (r.0, view r.1)

-- Write, go back to where the writing began, and read: the value, and the tape that is left.
abbrev pub write_back {ℓ} :
    {A : Type ℓ}
    → (ByteArray → Outcome ByteArray)
    → (ByteArray → Outcome (A × ByteArray))
    → ByteArray
    → Outcome (A × Tape)
write_back writer reader b = do
  r ← writer b
  s ← set_offset b.offset r
  (x, t) ← reader s
  ok (x, view t)

module _ (b : ByteArray) (v : IsValid b) (bytes : List ℕ) (some_bytes : 1 ≤ length bytes)
    {writer : ByteArray → Outcome ByteArray} (w : Stores writer b bytes) where
  -- What a write of `bytes` does, field by field.
  written : contents w.result ≡ overwrite (contents b) b.offset bytes
  unfolding Tape.write
  written = ap (λ (t : Tape). t.bytes) w.tape

  position : w.result.offset ≡ b.offset + length bytes
  unfolding Tape.write
  position = ap (λ (t : Tape). t.pos) w.tape

  pub back : Seeks w.result b.offset
  back =
      set_offset-Seeks w.result w.valid b.offset
        (omega (arith, position, w.valid.offset_le, w.valid.size_le))

  abbrev pub rewound : ByteArray
  rewound = record w.result { offset = b.offset; size = max_size w.result b.offset; cur = back.cur }

  same_size : max_size w.result b.offset ≡ w.result.size
  same_size = rw (le→ltb-false w.result.size b.offset (omega (arith, position, w.valid.offset_le)))

  contents-rewound : contents rewound ≡ overwrite (contents b) b.offset bytes
  contents-rewound = ap (λ s. take s (concat w.result.nodes)) same_size ∙ written

  pub remaining-rewound : remaining rewound ≡ bytes ++ drop (length bytes) (remaining b)
  remaining-rewound =
      ap (drop b.offset) contents-rewound
      ∙ drop-append_at (take b.offset (contents b)) _ b.offset
          (omega (arith, length-take b.offset (contents b), length-contents b v, v.offset_le))
      ∙ ap (λ l. bytes ++ l) (drop-contents b (length bytes))

  -- What is read back is what the reader makes of the array at its old position.
  pub write_back-reader {ℓ} :
      {A : Type ℓ} (f : ByteArray → Outcome (A × ByteArray))
      → write_back writer f b ≡ viewed (f rewound)
  write_back-reader f = rw (w.runs, back.runs)

  pub write_back_lem {ℓ} :
      {A : Type ℓ} (f : ByteArray → Outcome (A × ByteArray)) (x : A) (n : ℕ)
      → length bytes ≡ n
      → ((s : ByteArray) (rest : List ℕ)
          → IsValid s
          → s.endian ≡ b.endian
          → remaining s ≡ bytes ++ rest
          → Yields f s x n rest)
      → write_back writer f b ≡ ok (x, Tape.write bytes (view b))
  write_back_lem f x n len reads = rw (w.runs, back.runs, y.runs) (ap (λ t. ok (x, t)) same_tape)
    where
      y : Yields f rewound x (length bytes) (drop (length bytes) (remaining b))
      y =
          subst (λ k. Yields f rewound x k (drop (length bytes) (remaining b))) (sym len)
            (reads rewound _ back.valid w.same_endian remaining-rewound)

      same_tape :
          view (moved_to rewound y.cur (b.offset + length bytes)) ≡ Tape.write bytes (view b)
      same_tape =
          unfold Tape.write in
          λ i. record { bytes = contents-rewound i; pos = b.offset + length bytes }
