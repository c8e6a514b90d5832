-- ===== src/ByteArray/Reading.antt =====
-- Members that read forward: what they need in front of them, and one behind another.
use mathlib.Core.Path.{subst}
use east.Common.{
  ℕ, ◌+◌, ◌-◌, ◌≤◌, ◌≡◌, sym, ap, ◌∙◌, List, ◌++◌, length, take, drop, length-append, length-drop,
  take-all, drop-all, drop-drop, drop-append_le, take-append_le, arith, Outcome, ok, ◌>>=◌,
}
use east.Common.Slices.{slice}
use east.ByteArray.{ByteArray, read}
use east.ByteArray.Valid.{IsValid}
use east.ByteArray.Tape.{contents, remaining}
use east.ByteArray.Place.{length-contents}
use east.ByteArray.Refine.{moved_to, Reads, read-Reads}

-- `f` reads `n` bytes off the front of `b`, gives `x`, and leaves `rest` in front.
pub record Yields {ℓ} {A : Type ℓ} (f : ByteArray → Outcome (A × ByteArray)) (b : ByteArray) (x : A)
    (n : ℕ) (rest : List ℕ) : Type ℓ where
  pub cur : ℕ
  pub runs : f b ≡ ok (x, moved_to b cur (b.offset + n))
  pub valid : IsValid (moved_to b cur (b.offset + n))
  pub left : remaining (moved_to b cur (b.offset + n)) ≡ rest

pub length-remaining : (b : ByteArray) → IsValid b → length (remaining b) ≡ b.size - b.offset
length-remaining b v = omega (arith, length-drop b.offset (contents b), length-contents b v)

pub drop-contents :
    (b : ByteArray) (n : ℕ) → drop (b.offset + n) (contents b) ≡ drop n (remaining b)
drop-contents b n = sym (drop-drop n b.offset (contents b))

read_front :
    (b : ByteArray) (bytes rest : List ℕ)
    → IsValid b
    → 1 ≤ length bytes
    → remaining b ≡ bytes ++ rest
    → Yields (read (length bytes)) b bytes (length bytes) rest
read_front b bytes rest v h e = record {
  cur = r.cur;
  runs = r.runs ∙ ap (λ l. ok (l, moved_to b r.cur (b.offset + length bytes))) front;
  valid = r.valid;
  left =
      drop-contents b (length bytes)
      ∙ ap (drop (length bytes)) e
      ∙ drop-append_le (length bytes) bytes rest (omega arith)
      ∙ ap (λ l. l ++ rest) (drop-all (length bytes) bytes (omega arith));
}
  where
    r : Reads b (length bytes)
    r =
        read-Reads b v (length bytes) h
          (omega (arith, length-remaining b v, ap length e, length-append bytes rest))

    front : slice (contents b) b.offset (length bytes) ≡ bytes
    front =
        ap (take (length bytes)) e
        ∙ take-append_le (length bytes) bytes rest (omega arith)
        ∙ take-all (length bytes) bytes (omega arith)

pub read-Yields :
    (n : ℕ) (b : ByteArray) (bytes rest : List ℕ)
    → length bytes ≡ n
    → IsValid b
    → 1 ≤ n
    → remaining b ≡ bytes ++ rest
    → Yields (read n) b bytes n rest
read-Yields n b bytes rest len v h e =
    subst (λ k. Yields (read k) b bytes k rest) len
      (read_front b bytes rest v (omega (arith, len)) e)

-- A member that reads by `f` and then computes.
pub then-Yields {ℓ κ} :
    {A : Type ℓ} {B : Type κ} (f : ByteArray → Outcome (A × ByteArray)) (g : A → ByteArray → B)
    (b : ByteArray) (x : A) (z : B) (n : ℕ) (rest : List ℕ)
    → Yields f b x n rest
    → ((cur : ℕ) → g x (moved_to b cur (b.offset + n)) ≡ z)
    → Yields (λ s. f s >>= λ r. ok (g r.0 r.1, r.1)) b z n rest
then-Yields f g b x z n rest y e = record {
  cur = y.cur;
  runs = rw y.runs (ap (λ r. ok (r, moved_to b y.cur (b.offset + n))) (e y.cur));
  valid = y.valid;
  left = y.left;
}

-- One reader behind another.
pub both-Yields {ℓ κ} :
    {A : Type ℓ} {B : Type κ} (f : ByteArray → Outcome (A × ByteArray))
    (g : A → ByteArray → Outcome (B × ByteArray)) (b : ByteArray) (x : A) (y : B) (n m : ℕ)
    (mid rest : List ℕ)
    → Yields f b x n mid
    → ((s : ByteArray) → IsValid s → remaining s ≡ mid → Yields (g x) s y m rest)
    → Yields (λ s. f s >>= λ r. g r.0 r.1) b y (n + m) rest
both-Yields f g b x y n m mid rest first second = record {
  cur = then.cur;
  runs = rw first.runs (then.runs ∙ ap (λ o. ok (y, moved_to b then.cur o)) further);
  valid = subst (λ o. IsValid (moved_to b then.cur o)) further then.valid;
  left = ap (λ o. drop o (contents b)) (sym further) ∙ then.left;
}
  where
    then : Yields (g x) (moved_to b first.cur (b.offset + n)) y m rest
    then = second (moved_to b first.cur (b.offset + n)) first.valid first.left

    further : b.offset + n + m ≡ b.offset + (n + m)
    further = omega arith
