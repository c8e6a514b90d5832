-- ===== src/ByteArray/Blocks.antt =====
-- Chains of blocks of one size, as one flat memory.
use mathlib.Core.List.{append_assoc}
use east.Common.{
  ℕ, zero, suc, ◌*◌, ◌≤◌, ◌≡◌, refl, sym, ap, ◌∙◌, List, [], ◌∷◌, ◌++◌, length, take, drop, concat,
  All, length-append, length-take, take-append-drop, arith,
}

-- Every block has `bs` bytes.
abbrev pub Uniform : ℕ → List (List ℕ) → Type 0
Uniform bs nodes = All (λ n. length n ≡ bs) nodes

module _ (bs : ℕ) where
  pub length-concat :
      (nodes : List (List ℕ)) → Uniform bs nodes → length (concat nodes) ≡ length nodes * bs
  length-concat [] u = omega arith
  length-concat (n ∷ ns) u = omega (arith, length-append n (concat ns), length-concat ns u.1)

  pub Uniform-append :
      (xs ys : List (List ℕ)) → Uniform bs xs → Uniform bs ys → Uniform bs (xs ++ ys)
  Uniform-append [] ys u v = v
  Uniform-append (x ∷ xs) ys u v = (u.0, Uniform-append xs ys u.1 v)

  pub Uniform-take : (k : ℕ) (xs : List (List ℕ)) → Uniform bs xs → Uniform bs (take k xs)
  Uniform-take zero xs u = tt
  Uniform-take (suc k) [] u = tt
  Uniform-take (suc k) (x ∷ xs) u = (u.0, Uniform-take k xs u.1)

  pub Uniform-drop : (k : ℕ) (xs : List (List ℕ)) → Uniform bs xs → Uniform bs (drop k xs)
  Uniform-drop zero xs u = u
  Uniform-drop (suc k) [] u = tt
  Uniform-drop (suc k) (x ∷ xs) u = Uniform-drop k xs u.1

pub concat-append : (xs ys : List (List ℕ)) → concat (xs ++ ys) ≡ concat xs ++ concat ys
concat-append [] ys = refl
concat-append (x ∷ xs) ys =
    ap (λ l. x ++ l) (concat-append xs ys) ∙ sym (append_assoc x (concat xs) (concat ys))

-- The flat memory before and from the block `k`.
pub concat-split :
    (k : ℕ) (nodes : List (List ℕ)) → concat nodes ≡ concat (take k nodes) ++ concat (drop k nodes)
concat-split k nodes =
    ap concat (sym (take-append-drop k nodes)) ∙ concat-append (take k nodes) (drop k nodes)

pub length-before :
    (bs k : ℕ) (nodes : List (List ℕ))
    → Uniform bs nodes
    → k ≤ length nodes
    → length (concat (take k nodes)) ≡ k * bs
length-before bs k nodes u h =
    length-concat bs _ (Uniform-take bs k nodes u)
    ∙ ap (λ m. m * bs) (omega (arith, length-take k nodes))
