-- ===== src/Timer/Sorted.antt =====
-- The order of the set of East/src/Timer.cc, and its insertion and erasure.
use mathlib.Core.Path.{subst}
use mathlib.Core.Option.{some}
use east.Common.{
  ℕ, ◌≡◌, ◌≢◌, ◌≤◌, refl, sym, ◌∙◌, true, false, List, [], ◌∷◌, arith, All, Bool-cases, ◌⊎◌, inl,
  inr, ◌==◌,
}
use east.Timer.{Timer, cmp, before, insert, find_erase, store}

-- Membership of the set, and the order of `Cmp`, strictly ascending.
abbrev pub Has : ℕ → List ℕ → Type 0
Has x [] = ⊥
Has x (a ∷ others) = (x ≡ a) ⊎ Has x others

abbrev pub Sorted : (ℕ → Timer) → List ℕ → Type 0
Sorted heap [] = Unit {0}
Sorted heap (a ∷ others) = All (λ b. before heap a b ≡ true) others × Sorted heap others

module _ (heap : ℕ → Timer) where
  before_trans :
      (a b c : ℕ) → before heap a b ≡ true → before heap b c ≡ true → before heap a c ≡ true
  unfolding before cmp
  before_trans a b c h k = ground arith

  pub before_irrefl : (a : ℕ) → before heap a a ≡ true → ⊥
  unfolding before cmp
  before_irrefl a h = ground arith

  before-asym : (a b : ℕ) → before heap a b ≡ true → before heap b a ≡ false
  unfolding before cmp
  before-asym a b h = ground arith

  pub before-total : (a b : ℕ) → before heap a b ≡ false → before heap b a ≡ false → a ≡ b
  unfolding before cmp
  before-total a b h k = ground arith

  pub before-time :
      (a b : ℕ) → before heap a b ≡ true → (heap a).execute_time ≤ (heap b).execute_time
  unfolding before cmp
  before-time a b h = ground arith

pub All-Has : (P : ℕ → Type 0) (xs : List ℕ) (x : ℕ) → All P xs → Has x xs → P x
All-Has P [] x h k = absurd k
All-Has P (a ∷ others) x h (inl k) = subst P (sym k) h.0
All-Has P (a ∷ others) x h (inr k) = All-Has P others x h.1 k

pub Has-All : (P : ℕ → Type 0) (xs : List ℕ) → ((x : ℕ) → Has x xs → P x) → All P xs
Has-All P [] h = tt
Has-All P (a ∷ others) h = (h a (inl refl), Has-All P others (λ x k. h x (inr k)))

module _ (heap : ℕ → Timer) (a : ℕ) where
  -- Insertion.
  pub insert-Has : (xs : List ℕ) (x : ℕ) → Has x (insert heap a xs) → (x ≡ a) ⊎ Has x xs
  unfolding insert
  insert-Has [] x = λ h. h
  insert-Has (b ∷ bs) x = elim (Bool-cases (before heap b a)) [
    | inl e ↦ rw (e) (λ h. elim h [
      | inl k ↦ inr (inl k)
      | inr k ↦ elim (insert-Has bs x k) [ inl j ↦ inl j | inr j ↦ inr (inr j) ]
    ])
    | inr e ↦ elim (Bool-cases (before heap a b)) [
      | inl d ↦ rw (e, d) (λ h. h)
      | inr d ↦ rw (e, d) (λ h. inr h)
    ]
  ]

  pub Has-insert_old : (xs : List ℕ) (x : ℕ) → Has x xs → Has x (insert heap a xs)
  unfolding insert
  Has-insert_old [] x h = absurd h
  Has-insert_old (b ∷ bs) x h = elim (Bool-cases (before heap b a)) [
    | inl e ↦ rw (e) (elim h [ inl k ↦ inl k | inr k ↦ inr (Has-insert_old bs x k) ])
    | inr e ↦ elim (Bool-cases (before heap a b)) [
      | inl d ↦ rw (e, d) (inr h)
      | inr d ↦ rw (e, d) h
    ]
  ]

  pub Has-insert_new : (xs : List ℕ) → Has a (insert heap a xs)
  unfolding insert
  Has-insert_new [] = inl refl
  Has-insert_new (b ∷ bs) = elim (Bool-cases (before heap b a)) [
    | inl e ↦ rw (e) (inr (Has-insert_new bs))
    | inr e ↦ elim (Bool-cases (before heap a b)) [
      | inl d ↦ rw (e, d) (inl refl)
      | inr d ↦ rw (e, d) (inl (before-total heap a b d e))
    ]
  ]

  pub insert-Sorted : (xs : List ℕ) → Sorted heap xs → Sorted heap (insert heap a xs)
  unfolding insert
  insert-Sorted [] s = (tt, tt)
  insert-Sorted (b ∷ bs) s = elim (Bool-cases (before heap b a)) [
    | inl e ↦ rw (e) (
      Has-All (λ x. before heap b x ≡ true) (insert heap a bs)
          (λ x k. elim (insert-Has bs x k) [
            | inl j ↦ rw (j) e
            | inr j ↦ All-Has (λ y. before heap b y ≡ true) bs x s.0 j
          ]),
      insert-Sorted bs s.1,
    )
    | inr e ↦ elim (Bool-cases (before heap a b)) [
      | inl d ↦
          rw (e, d)
            (
              (
                d,
                Has-All (λ x. before heap a x ≡ true) bs
                    (λ x k.
                      before_trans heap a b x d (All-Has (λ y. before heap b y ≡ true) bs x s.0 k)),
              ),
              s,
            )
      | inr d ↦ rw (e, d) s
    ]
  ]

-- Erasure of what is there.
pub record Erased (heap : ℕ → Timer) (a : ℕ) (xs : List ℕ) : Type 0 where
  pub left : List ℕ
  pub runs : find_erase heap a xs ≡ some left
  pub sorted : Sorted heap left
  pub without : Has a left → ⊥
  pub before_had : (x : ℕ) → Has x left → Has x xs
  pub still_has : (x : ℕ) → x ≢ a → Has x xs → Has x left

pub find_erase-Erased :
    (heap : ℕ → Timer) (a : ℕ) (xs : List ℕ) → Sorted heap xs → Has a xs → Erased heap a xs
unfolding find_erase
find_erase-Erased heap a [] s h = absurd h
find_erase-Erased heap a (b ∷ bs) s (inl k) = record {
  left = bs;
  runs = rw (k, irreflexive) refl;
  sorted = s.1;
  without = λ j.
      before_irrefl heap b
        (All-Has (λ y. before heap b y ≡ true) bs b s.0 (subst (λ y. Has y bs) k j));
  before_had = λ x j. inr j;
  still_has = λ x other j. elim j [ inl i ↦ absurd (other (i ∙ sym k)) | inr i ↦ i ];
}
  where
    irreflexive : before heap b b ≡ false
    irreflexive = elim (Bool-cases (before heap b b)) [
      | inl e ↦ absurd (before_irrefl heap b e)
      | inr e ↦ e
    ]
find_erase-Erased heap a (b ∷ bs) s (inr k) =
    let r = find_erase-Erased heap a bs s.1 k in
    let e = All-Has (λ y. before heap b y ≡ true) bs a s.0 k in
    record {
      left = b ∷ r.left;
      runs = rw (e, r.runs) refl;
      sorted = (
        Has-All (λ x. before heap b x ≡ true) r.left
            (λ x j. All-Has (λ y. before heap b y ≡ true) bs x s.0 (r.before_had x j)),
        r.sorted,
      );
      without = λ j. elim j [
        | inl i ↦ before_irrefl heap b (subst (λ y. before heap b y ≡ true) i e)
        | inr i ↦ r.without i
      ];
      before_had = λ x j. elim j [ inl i ↦ inl i | inr i ↦ inr (r.before_had x i) ];
      still_has = λ x other j. elim j [ inl i ↦ inl i | inr i ↦ inr (r.still_has x other i) ];
    }

-- A timer that is not in the set may change.
pub store-other : (a x : ℕ) (t : Timer) (heap : ℕ → Timer) → x ≢ a → store a t heap x ≡ heap x
store-other a x t heap h = rw (different x a h) refl
  where
    different : (x a : ℕ) → x ≢ a → (x == a) ≡ false
    different x a h = ground arith

pub store-same : (a : ℕ) (t : Timer) (heap : ℕ → Timer) → store a t heap a ≡ t
store-same a t heap = rw (equal a) refl
  where
    equal : (a : ℕ) → (a == a) ≡ true
    equal a = ground arith

pub Sorted-store :
    (heap : ℕ → Timer) (a : ℕ) (t : Timer) (xs : List ℕ)
    → (Has a xs → ⊥)
    → Sorted heap xs
    → Sorted (store a t heap) xs
unfolding before
Sorted-store heap a t [] h s = tt
Sorted-store heap a t (b ∷ bs) h s = (
  Has-All (λ x. before (store a t heap) b x ≡ true) bs
      (λ x k.
        rw
          (
            store-other a b t heap (λ j. h (inl (sym j))),
            store-other a x t heap (λ j. h (inr (subst (λ y. Has y bs) j k))),
          )
          (All-Has (λ y. before heap b y ≡ true) bs x s.0 k)),
  Sorted-store heap a t bs (λ k. h (inr k)) s.1,
)
