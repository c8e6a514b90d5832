-- ===== src/LogFormatter/Escapes.antt =====
-- "%%" in a pattern, where `init` of East/src/LogFormatter.cc means to write one percent sign.
use east.Common.{ℕ, ◌-◌, ◌≡◌, refl, ap, ◌∙◌, true, false, List, [], ◌∷◌, ◌++◌, ◌==◌, length}
use east.LogFormatter.{percent, styled, Parsed, flush, before, parse, items_of, init}
use east.LogFormatter.Tokens.{Lacks, EndsName, parse_text}

-- No item has an empty name.
nameless_error :
    (s : List ℕ) (p : Parsed) → (items_of (before (flush s ++ styled [] [] ∷ []) p)).1 ≡ true
nameless_error [] (pieces, has_error) = refl
nameless_error (c ∷ s) (pieces, has_error) = refl

second_percent :
    (c : ℕ) (rest s : List ℕ)
    → EndsName c
    → (c == percent) ≡ false
    → (items_of (parse (percent ∷ c ∷ rest) 0 s)).1 ≡ true
second_percent c rest s (e, a) d =
    rw (d, e, a) (nameless_error s (parse (c ∷ rest) (length (c ∷ rest) - length (c ∷ rest)) []))

-- A pattern with two percent signs behind any text without one, in front of anything but a letter, a brace or a third
-- percent sign, has an error.
pub two_percents :
    (front rest : List ℕ) (c : ℕ)
    → Lacks percent front
    → EndsName c
    → (c == percent) ≡ false
    → (init (front ++ percent ∷ percent ∷ c ∷ rest)).1 ≡ true
unfolding init
two_percents front rest c h e d =
    ap (λ p. (items_of p).1) (parse_text front (percent ∷ percent ∷ c ∷ rest) [] h)
    ∙ second_percent c rest (front ++ percent ∷ []) e d
