-- ===== src/Dispatch/Tests.antt =====
-- Runs of the dispatcher of East/http/Servlet.cc. The pattern matcher knows `*` alone.
use mathlib.Core.Option.{some}
use east.Common.{ℕ, ◌≡◌, refl, Bool, true, List, [], ◌∷◌, if◌then◌else◌}
use east.Dispatch.{
  ServletDispatch, same, add_servlet, del_servlet, add_glob_servlet, erase_first,
  get_matched_servlet, get_servlet, find_glob, at,
}
use east.Dispatch.Matched.{matched_servlet-update}

-- `*` matches everything, and another pattern itself.
abbrev star : List ℕ → List ℕ → Bool
star p x = if same p (42 ∷ []) then true else same p x

abbrev site : ServletDispatch
site = record {
  datas = (47 ∷ [], some 1) ∷ (47 ∷ 97 ∷ [], some 2) ∷ [];
  globs = (42 ∷ [], some 3) ∷ [];
  default = some 404;
}

matched_servlet-update_example :
    (get_matched_servlet star (47 ∷ []) (add_servlet (47 ∷ []) (some 9) site) ≡ some 9)
    × (get_matched_servlet star (47 ∷ []) (del_servlet (47 ∷ []) site) ≡ some 3)
unfolding find_glob
matched_servlet-update_example = matched_servlet-update star (47 ∷ []) (47 ∷ []) (some 9) site

-- A pattern that is added again goes to the end.
glob_run : (add_glob_servlet (42 ∷ []) (some 4) site).globs ≡ (42 ∷ [], some 4) ∷ []
unfolding add_glob_servlet erase_first
glob_run = refl

exact_run : get_matched_servlet star (47 ∷ 97 ∷ []) site ≡ some 2
unfolding get_matched_servlet get_servlet at
exact_run = refl
