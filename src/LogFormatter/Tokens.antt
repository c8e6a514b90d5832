-- ===== src/LogFormatter/Tokens.antt =====
-- Patterns written from their parts, and what `init` of East/src/LogFormatter.cc reads from them.
use mathlib.Core.List.{append_assoc, append-nil}
use east.Common.{
  ℕ, ◌-◌, ◌≡◌, refl, sym, ap, ◌∙◌, arith, true, false, ◌||◌, List, [], ◌∷◌, ◌++◌, map, ◌==◌, length,
  length-append, All,
}
use east.LogFormatter.{
  percent, open_brace, close_brace, isalpha, Piece, normal, styled, Style, read_fmt, read_name,
  Parsed, flush, before, resume, of_style, parse,
}

-- A text, "%name", and "%name{format}".
pub data Token : Type 0 where
  text : ℕ → List ℕ → Token
  plain : ℕ → List ℕ → Token
  formatted : ℕ → List ℕ → List ℕ → Token

abbrev pub print : Token → List ℕ
print (text c s) = c ∷ s
print (plain c name) = percent ∷ c ∷ name
print (formatted c name format) = percent ∷ c ∷ (name ++ open_brace ∷ (format ++ close_brace ∷ []))

abbrev pub print_all : List Token → List ℕ
print_all [] = []
print_all (t ∷ ts) = print t ++ print_all ts

abbrev pub piece : Token → Piece
piece (text c s) = normal (c ∷ s)
piece (plain c name) = styled (c ∷ name) []
piece (formatted c name format) = styled (c ∷ name) format

abbrev pub Lacks : ℕ → List ℕ → Type 0
Lacks c = All (λ x. (x == c) ≡ false)

abbrev pub IsName : List ℕ → Type 0
IsName = All (λ c. isalpha c ≡ true)

-- Not the first code of what would be read as more of a name.
abbrev pub EndsName : ℕ → Type 0
EndsName c = ((c == open_brace) ≡ false) × (isalpha c || (c == close_brace) ≡ false)

-- What may follow a text, and a "%name".
abbrev pub AfterText : List Token → Type 0
AfterText (text c s ∷ ts) = ⊥
AfterText ts = Unit {0}

abbrev pub AfterName : List Token → Type 0
AfterName (text c s ∷ ts) = EndsName c
AfterName ts = Unit {0}

abbrev pub IsToken : Token → List Token → Type 0
IsToken (text c s) ts = Lacks percent (c ∷ s) × AfterText ts
IsToken (plain c name) ts = IsName (c ∷ name) × AfterName ts
IsToken (formatted c name format) ts = IsName (c ∷ name) × Lacks close_brace format

abbrev pub IsPattern : List Token → Type 0
IsPattern [] = Unit {0}
IsPattern (t ∷ ts) = IsToken t ts × IsPattern ts

closed : List ℕ → List ℕ → List ℕ → Style
closed pattern fmt rest = record { pattern = pattern; fmt = fmt; is_closed = true; rest = rest }

read_fmt_lem :
    (format rest : List ℕ)
    → Lacks close_brace format
    → read_fmt (format ++ close_brace ∷ rest) ≡ closed [] format rest
unfolding closed
read_fmt_lem [] rest h = refl
read_fmt_lem (c ∷ format) rest (e, h) = rw (e, read_fmt_lem format rest h) refl

alpha-open : (c : ℕ) → isalpha c ≡ true → (c == open_brace) ≡ false
alpha-open c h = ground arith

alpha-percent : (c : ℕ) → isalpha c ≡ true → (c == percent) ≡ false
alpha-percent c h = ground arith

-- A name in front of a text whose name is empty.
read_name_lem :
    (name fmt more rest : List ℕ)
    → IsName name
    → read_name more ≡ closed [] fmt rest
    → read_name (name ++ more) ≡ closed name fmt rest
unfolding closed
read_name_lem [] fmt more rest h e = e
read_name_lem (c ∷ name) fmt more rest (a, h) e =
    rw (alpha-open c a, a, read_name_lem name fmt more rest h e) refl

-- The codes of a style are passed over.
parse_drop : (skipped rest s : List ℕ) → parse (skipped ++ rest) (length skipped) s ≡ parse rest 0 s
parse_drop [] rest s = refl
parse_drop (c ∷ skipped) rest s = parse_drop skipped rest s

skip_length : (skipped rest : List ℕ) → length (skipped ++ rest) - length rest ≡ length skipped
skip_length skipped rest = omega (arith, length-append skipped rest)

parse_style :
    (c : ℕ) (body name fmt rest s : List ℕ)
    → isalpha c ≡ true
    → read_name (c ∷ body ++ rest) ≡ closed name fmt rest
    → parse (percent ∷ c ∷ body ++ rest) 0 s
      ≡ before (flush s ++ styled name fmt ∷ []) (parse rest 0 [])
unfolding closed
parse_style c body name fmt rest s a e = rw (alpha-percent c a) (
    ap (λ style. resume (of_style (c ∷ body ++ rest) style) s (parse (c ∷ body ++ rest))) e
    ∙ ap (before (flush s ++ styled name fmt ∷ [])) (
        ap (λ k. parse (c ∷ body ++ rest) k []) (skip_length (c ∷ body) rest)
        ∙ parse_drop (c ∷ body) rest []))

pub parse_text :
    (front rest s : List ℕ)
    → Lacks percent front
    → parse (front ++ rest) 0 s ≡ parse rest 0 (s ++ front)
parse_text [] rest s h = ap (parse rest 0) (sym (append-nil s))
parse_text (c ∷ front) rest s (e, h) =
    rw (e)
      (parse_text front rest (s ++ c ∷ []) h ∙ ap (parse rest 0) (append_assoc s (c ∷ []) front))

after_name :
    (ts : List Token) → AfterName ts → read_name (print_all ts) ≡ closed [] [] (print_all ts)
unfolding closed
after_name [] h = refl
after_name (text c s ∷ ts) (e, a) = rw (e, a) refl
after_name (plain c name ∷ ts) h = refl
after_name (formatted c name format ∷ ts) h = refl

-- A text that is read already is flushed in front of what follows.
before-flush :
    (s : List ℕ) (p : Piece) (q : Parsed)
    → before (flush s ++ p ∷ []) q ≡ before (flush s) (before (p ∷ []) q)
before-flush s p (pieces, has_error) =
    ap (λ l. (l, has_error)) (append_assoc (flush s) (p ∷ []) pieces)

parse_token :
    (t : Token) (ts : List Token) (s : List ℕ)
    → IsToken t ts
    → AfterText (t ∷ ts)
    → parse (print t ++ print_all ts) 0 s
      ≡ before (flush s ++ piece t ∷ []) (parse (print_all ts) 0 [])
parse_token (text c name) ts s h after = absurd after
parse_token (plain c name) ts s ((a, n), h) after =
    parse_style c name (c ∷ name) [] (print_all ts) s a
      (read_name_lem (c ∷ name) [] (print_all ts) (print_all ts) (a, n) (after_name ts h))
parse_token (formatted c name format) ts s ((a, n), h) after =
    parse_style c (name ++ open_brace ∷ (format ++ close_brace ∷ [])) (c ∷ name) format
      (print_all ts) s a
      (ap (λ l. read_name (c ∷ l))
          (append_assoc name (open_brace ∷ (format ++ close_brace ∷ [])) (print_all ts))
        ∙ read_name_lem (c ∷ name) format
            (open_brace ∷ ((format ++ close_brace ∷ []) ++ print_all ts)) (print_all ts) (a, n)
            (ap read_fmt (append_assoc format (close_brace ∷ []) (print_all ts))
              ∙ read_fmt_lem format (print_all ts) h))

-- A text before a token that is no text.
text_before :
    (c : ℕ) (s : List ℕ) (t : Token) (ts : List Token)
    → IsToken t ts
    → AfterText (t ∷ ts)
    → parse (print_all (t ∷ ts)) 0 [] ≡ (map piece (t ∷ ts), false)
    → parse (print_all (t ∷ ts)) 0 (c ∷ s) ≡ (normal (c ∷ s) ∷ map piece (t ∷ ts), false)
text_before c s t ts h after e =
    parse_token t ts (c ∷ s) h after
    ∙ before-flush (c ∷ s) (piece t) (parse (print_all ts) 0 [])
    ∙ ap (before (flush (c ∷ s))) (sym (parse_token t ts [] h after) ∙ e)

after_text :
    (c : ℕ) (s : List ℕ) (ts : List Token)
    → IsPattern ts
    → AfterText ts
    → parse (print_all ts) 0 [] ≡ (map piece ts, false)
    → parse (print_all ts) 0 (c ∷ s) ≡ (normal (c ∷ s) ∷ map piece ts, false)
after_text c s [] h after e = refl
after_text c s (t ∷ ts) (h, hs) after e = text_before c s t ts h after e

-- A pattern is read as the pieces that it was written from, and no error is set. The conditions: a text has no percent
-- sign and no text behind it; a name is letters; behind a name without a format stands no letter and no brace; a
-- format has no closing brace.
pub parse_tokens :
    (ts : List Token) → IsPattern ts → parse (print_all ts) 0 [] ≡ (map piece ts, false)
parse_tokens [] h = refl
parse_tokens (text c s ∷ ts) ((l, a), h) =
    parse_text (c ∷ s) (print_all ts) [] l ∙ after_text c s ts h a (parse_tokens ts h)
parse_tokens (plain c name ∷ ts) (h, hs) =
    parse_token (plain c name) ts [] h tt
    ∙ ap (before (styled (c ∷ name) [] ∷ [])) (parse_tokens ts hs)
parse_tokens (formatted c name format ∷ ts) (h, hs) =
    parse_token (formatted c name format) ts [] h tt
    ∙ ap (before (styled (c ∷ name) format ∷ [])) (parse_tokens ts hs)
