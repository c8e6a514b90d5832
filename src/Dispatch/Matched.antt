-- ===== src/Dispatch/Matched.antt =====
-- What adding to and deleting from the dispatcher of East/http/Servlet.cc does to every match.
use mathlib.Core.Option.{Option, none}
use east.Common.{
  ℕ, ◌≡◌, refl, sym, ap, ◌∙◌, Bool, true, false, List, [], ◌∷◌, if◌then◌else◌, ◌==◌, Bool-cases,
  inl, inr, arith,
}
use east.Dispatch.{
  ServletDispatch, Entry, same, assign, erase, at, add_servlet, del_servlet, get_servlet, otherwise,
  find_glob, get_glob_servlet, get_matched_servlet,
}

same_refl : (xs : List ℕ) → same xs xs ≡ true
same_refl [] = refl
same_refl (x ∷ xs) = rw (equal x) (same_refl xs)
  where
    equal : (x : ℕ) → (x == x) ≡ true
    equal x = ground arith

same_sound : (xs ys : List ℕ) → same xs ys ≡ true → xs ≡ ys
same_sound [] [] e = refl
same_sound [] (y ∷ ys) e = cc (e)
same_sound (x ∷ xs) [] e = cc (e)
same_sound (x ∷ xs) (y ∷ ys) e = elim (Bool-cases (x == y)) [
  | inl f ↦ cc (equal f, same_sound xs ys (rw⁻¹ (heads f) e))
  | inr f ↦ cc (heads f, e)
]
  where
    equal : (x == y) ≡ true → x ≡ y
    equal f = ground arith

    heads : {c : Bool} → (x == y) ≡ c → same (x ∷ xs) (y ∷ ys) ≡ (if c then same xs ys else false)
    heads f = rw (f) refl

module _ (x uri : List ℕ) where
  -- Where the keys differ, an entry of one is none of the other.
  other_key : (k : List ℕ) → same k uri ≡ true → same uri x ≡ false → same k x ≡ false
  other_key k e f = ap (λ l. same l x) (same_sound k uri e) ∙ f

  same_key : (k : List ℕ) → same k uri ≡ false → same uri x ≡ true → same k x ≡ false
  same_key k e f = ap (same k) (sym (same_sound uri x f)) ∙ e

  at-assign :
      (slt : Option ℕ) (es : List Entry)
      → at x (assign uri slt es) ≡ (if same uri x then slt else at x es)
  unfolding at assign
  at-assign slt [] = refl
  at-assign slt (e ∷ es) = elim (Bool-cases (same e.0 uri)) [
    | inl k ↦ elim (Bool-cases (same uri x)) [
      | inl f ↦ rw (k, f) refl
      | inr f ↦ rw (k, f, other_key e.0 k f) refl
    ]
    | inr k ↦ elim (Bool-cases (same uri x)) [
      | inl f ↦ rw (k, same_key e.0 k f) (at-assign slt es)
      | inr f ↦ elim (Bool-cases (same e.0 x)) [
        | inl g ↦ rw (k, g, f) refl
        | inr g ↦ rw (k, g) (at-assign slt es)
      ]
    ]
  ]

  at-erase : (es : List Entry) → at x (erase uri es) ≡ (if same uri x then none else at x es)
  unfolding at erase
  at-erase [] = elim (Bool-cases (same uri x)) [ inl f ↦ rw (f) refl | inr f ↦ rw (f) refl ]
  at-erase (e ∷ es) = elim (Bool-cases (same e.0 uri)) [
    | inl k ↦ elim (Bool-cases (same uri x)) [
      | inl f ↦ rw (k, f) (at-erase es ∙ rw (f) refl)
      | inr f ↦ rw (k, f, other_key e.0 k f) (at-erase es ∙ rw (f) refl)
    ]
    | inr k ↦ elim (Bool-cases (same uri x)) [
      | inl f ↦ rw (k, f, same_key e.0 k f) (at-erase es ∙ rw (f) refl)
      | inr f ↦ elim (Bool-cases (same e.0 x)) [
        | inl g ↦ rw (k, g, f) refl
        | inr g ↦ rw (k, g) (at-erase es)
      ]
    ]
  ]

-- What a path gets that no exact servlet is registered for: the first pattern that matches, unless its
-- servlet is null, and then the default.
abbrev pub fallback : (List ℕ → List ℕ → Bool) → List ℕ → ServletDispatch → Option ℕ
fallback fnmatch x d = otherwise (find_glob fnmatch x d.globs) d.default

-- For every path, `addServlet` and `delServlet` of a URI change the match of that path alone: after
-- adding it is the servlet added, unless that is null, and after deleting what the patterns and the
-- default give; every other path is matched as before.
pub matched_servlet-update :
    (fnmatch : List ℕ → List ℕ → Bool) (x uri : List ℕ) (slt : Option ℕ) (d : ServletDispatch)
    → (get_matched_servlet fnmatch x (add_servlet uri slt d) ≡ (
        if same uri x
        then otherwise slt (fallback fnmatch x d)
        else get_matched_servlet fnmatch x d))
      × (get_matched_servlet fnmatch x (del_servlet uri d)
          ≡ (if same uri x then fallback fnmatch x d else get_matched_servlet fnmatch x d))
unfolding get_matched_servlet get_servlet get_glob_servlet add_servlet del_servlet
matched_servlet-update fnmatch x uri slt d = elim (Bool-cases (same uri x)) [
  | inl f ↦ (
    rw (f) (
        ap (λ o. otherwise o (fallback fnmatch x d)) {y = slt}
          (at-assign x uri slt d.datas ∙ rw (f) refl)),
    rw (f) (
        ap (λ o. otherwise o (fallback fnmatch x d)) {y = none}
          (at-erase x uri d.datas ∙ rw (f) refl)),
  )
  | inr f ↦ (
    rw (f) (
        ap (λ o. otherwise o (fallback fnmatch x d)) {y = at x d.datas}
          (at-assign x uri slt d.datas ∙ rw (f) refl)),
    rw (f) (
        ap (λ o. otherwise o (fallback fnmatch x d)) {y = at x d.datas}
          (at-erase x uri d.datas ∙ rw (f) refl)),
  )
]
