-- ===== src/Common/Slices.antt =====
-- `memcpy` on lists: a block overwritten in the middle, a block read out of the middle, and how
-- both fall apart at the border of two adjacent blocks.
use Prim.Native.Nat.{ℕ, ◌+◌, ◌-◌, ◌≤◌}
use mathlib.Core.Path.{◌≡◌, ap, ap₂, sym, ◌∙◌, ◌≡⟨◌⟩◌, ◌∎}
use mathlib.Core.List.{List, [], ◌++◌, append_assoc, append-nil}
use native.Mathlib.Decide.{dec_le}
use native.Mathlib.Omega.{arith}
use east.Common.Lists.{
  length, take, drop, length-append, length-take, length-drop, take-all, drop-all, take-append_le,
  drop-append_le, take-append, take-append-drop, drop-append,
}

module _ {ℓ} {A : Type ℓ} where
  -- `memcpy(xs + at, bytes, length bytes)`
  abbrev pub overwrite : List A → ℕ → List A → List A
  overwrite xs at bytes = take at xs ++ (bytes ++ drop (at + length bytes) xs)

  -- `memcpy(out, xs + at, n)`
  abbrev pub slice : List A → ℕ → ℕ → List A
  slice xs at n = take n (drop at xs)

module _ {ℓ} {A : Type ℓ} where
  pub length-overwrite :
      (xs : List A) (at : ℕ) (bytes : List A)
      → at + length bytes ≤ length xs
      → length (overwrite xs at bytes) ≡ length xs
  length-overwrite xs at bytes h = omega (
    arith,
    length-append (take at xs) (bytes ++ drop (at + length bytes) xs),
    length-append bytes (drop (at + length bytes) xs),
    length-take at xs,
    length-drop (at + length bytes) xs,
  )

  pub length-slice : (xs : List A) (at n : ℕ) → at + n ≤ length xs → length (slice xs at n) ≡ n
  length-slice xs at n h = omega (arith, length-take n (drop at xs), length-drop at xs)

  drop-border :
      (xs ys : List A) (k : ℕ) → length xs ≤ k → drop k (xs ++ ys) ≡ drop (k - length xs) ys
  drop-border xs ys k h =
      ap (λ m. drop m (xs ++ ys)) {x = k} {y = length xs + (k - length xs)} (omega arith)
      ∙ drop-append xs ys (k - length xs)

  take-border :
      (xs ys : List A) (k : ℕ) → length xs ≤ k → take k (xs ++ ys) ≡ xs ++ take (k - length xs) ys
  take-border xs ys k h =
      ap (λ m. take m (xs ++ ys)) {x = k} {y = length xs + (k - length xs)} (omega arith)
      ∙ take-append xs ys (k - length xs)

  -- A block that ends inside the first part leaves the second alone.
  pub overwrite-append_left :
      (xs ys : List A) (at : ℕ) (bytes : List A)
      → at + length bytes ≤ length xs
      → overwrite (xs ++ ys) at bytes ≡ overwrite xs at bytes ++ ys
  overwrite-append_left xs ys at bytes h = rw (
    take-append_le at xs ys (omega arith),
    drop-append_le (at + length bytes) xs ys h,
    append_assoc,
    append_assoc,
  )

  -- One that goes over the border is written in two steps.
  pub overwrite-append_across :
      (xs ys : List A) (at w : ℕ) (bytes : List A)
      → at + w ≡ length xs
      → w ≤ length bytes
      → overwrite (xs ++ ys) at bytes
        ≡ overwrite xs at (take w bytes) ++ overwrite ys 0 (drop w bytes)
  overwrite-append_across xs ys at w bytes h k =
      take at (xs ++ ys) ++ (bytes ++ drop (at + length bytes) (xs ++ ys))
      ≡⟨ (rw (
        take-append_le at xs ys (omega arith),
        drop-border xs ys (at + length bytes) (omega arith),
      )) ⟩
        take at xs ++ (bytes ++ drop (at + length bytes - length xs) ys)
      ≡⟨ ap₂ (λ b d. take at xs ++ (b ++ d)) (sym (take-append-drop w bytes)) same ⟩
        take at xs ++ ((take w bytes ++ drop w bytes) ++ drop (0 + length (drop w bytes)) ys)
      ≡⟨ (rw (gone, append-nil, append_assoc, append_assoc)) ⟩
        overwrite xs at (take w bytes) ++ overwrite ys 0 (drop w bytes) ∎
    where
      same : drop (at + length bytes - length xs) ys ≡ drop (0 + length (drop w bytes)) ys
      same = ap (λ m. drop m ys) (omega (arith, length-drop w bytes))

      gone : drop (at + length (take w bytes)) xs ≡ []
      gone = drop-all _ xs (omega (arith, length-take w bytes))

  pub slice-append_left :
      (xs ys : List A) (at n : ℕ) → at + n ≤ length xs → slice (xs ++ ys) at n ≡ slice xs at n
  slice-append_left xs ys at n h =
      rw (drop-append_le at xs ys (omega arith))
        (take-append_le n (drop at xs) ys (omega (arith, length-drop at xs)))

  pub slice-append_across :
      (xs ys : List A) (at w n : ℕ)
      → at + w ≡ length xs
      → w ≤ n
      → slice (xs ++ ys) at n ≡ slice xs at w ++ slice ys 0 (n - w)
  slice-append_across xs ys at w n h k = rw (drop-append_le at xs ys (omega arith)) (
      take-border (drop at xs) ys n (omega (arith, length-drop at xs))
      ∙ ap₂ (λ a m. a ++ take m ys)
          (sym (take-all w (drop at xs) (omega (arith, length-drop at xs))))
          (omega (arith, length-drop at xs)))

  -- A block behind the first part leaves the first part alone.
  pub overwrite-append_right :
      (xs ys : List A) (at : ℕ) (bytes : List A)
      → overwrite (xs ++ ys) (length xs + at) bytes ≡ xs ++ overwrite ys at bytes
  overwrite-append_right xs ys at bytes =
      take (length xs + at) (xs ++ ys) ++ (bytes ++ drop (length xs + at + length bytes) (xs ++ ys))
      ≡⟨ ap₂ (λ a d. a ++ (bytes ++ d)) (take-append xs ys at) behind ⟩
        (xs ++ take at ys) ++ (bytes ++ drop (at + length bytes) ys)
      ≡⟨ append_assoc xs (take at ys) _ ⟩ xs ++ overwrite ys at bytes ∎
    where
      behind : drop (length xs + at + length bytes) (xs ++ ys) ≡ drop (at + length bytes) ys
      behind =
          ap (λ m. drop m (xs ++ ys)) {y = length xs + (at + length bytes)} (omega arith)
          ∙ drop-append xs ys (at + length bytes)

  pub slice-append_right :
      (xs ys : List A) (at n : ℕ) → slice (xs ++ ys) (length xs + at) n ≡ slice ys at n
  slice-append_right xs ys at n = ap (take n) (drop-append xs ys at)

  -- A prefix that reaches far enough reads alike.
  pub slice-take :
      (xs : List A) (s at n : ℕ)
      → at + n ≤ s
      → s ≤ length xs
      → slice (take s xs) at n ≡ slice xs at n
  slice-take xs s at n h k =
      sym (slice-append_left (take s xs) (drop s xs) at n (omega (arith, length-take s xs)))
      ∙ ap (λ l. slice l at n) (take-append-drop s xs)

  take-take_le : (xs : List A) (s n : ℕ) → n ≤ s → take n (take s xs) ≡ take n xs
  take-take_le xs s n h = elim (dec_le s (length xs)) [
    | yes k ↦
        sym (take-append_le n (take s xs) (drop s xs) (omega (arith, length-take s xs)))
        ∙ ap (take n) (take-append-drop s xs)
    | no k ↦ ap (take n) (take-all s xs (omega arith))
  ]

  -- Writing at a position of a prefix, and past its end.
  pub overwrite-take_inside :
      (xs : List A) (s at : ℕ) (bytes : List A)
      → s ≤ length xs
      → at + length bytes ≤ s
      → take s (overwrite xs at bytes) ≡ overwrite (take s xs) at bytes
  overwrite-take_inside xs s at bytes h k =
      ap (λ l. take s (overwrite l at bytes)) (sym (take-append-drop s xs))
      ∙ ap (take s) (overwrite-append_left (take s xs) (drop s xs) at bytes (omega (arith, long)))
      ∙ take-append_le s _ (drop s xs) (omega (arith, same, long))
      ∙ take-all s _ (omega (arith, same, long))
    where
      long : length (take s xs) ≡ s
      long = omega (arith, length-take s xs)

      same : length (overwrite (take s xs) at bytes) ≡ length (take s xs)
      same = length-overwrite (take s xs) at bytes (omega (arith, long))

  pub overwrite-take_beyond :
      (xs : List A) (s at : ℕ) (bytes : List A)
      → at ≤ s
      → s ≤ length xs
      → s ≤ at + length bytes
      → take (at + length bytes) (overwrite xs at bytes) ≡ overwrite (take s xs) at bytes
  overwrite-take_beyond xs s at bytes h k l =
      take (at + length bytes) (overwrite xs at bytes)
      ≡⟨ ap (take (at + length bytes)) (sym (append_assoc (take at xs) bytes _)) ⟩
        take (at + length bytes) ((take at xs ++ bytes) ++ drop (at + length bytes) xs)
      ≡⟨ take-append_le _ (take at xs ++ bytes) _ (omega (arith, long)) ⟩
        take (at + length bytes) (take at xs ++ bytes)
      ≡⟨ take-all _ (take at xs ++ bytes) (omega (arith, long)) ⟩ take at xs ++ bytes
      ≡⟨ ap₂ (λ a d. a ++ d) (sym (take-take_le xs s at h)) ends ⟩ overwrite (take s xs) at bytes ∎
    where
      long : length (take at xs ++ bytes) ≡ at + length bytes
      long = omega (arith, length-append (take at xs) bytes, length-take at xs)

      ends : bytes ≡ bytes ++ drop (at + length bytes) (take s xs)
      ends =
          sym (append-nil bytes)
          ∙ ap (λ d. bytes ++ d)
              (sym (drop-all (at + length bytes) (take s xs) (omega (arith, length-take s xs))))
