-- ===== src/Dispatch.antt =====
-- ServletDispatch of East/http/Servlet.cc. A servlet is known by a number, and `none` is the null
-- pointer. A string is the list of its bytes. `fnmatch` is the system's: whether a pattern matches.
pub mod Matched
mod Tests
use mathlib.Core.Option.{Option, none, some}
use east.Common.{ℕ, Bool, true, false, List, [], ◌∷◌, ◌++◌, if◌then◌else◌, ◌==◌}

abbrev pub same : List ℕ → List ℕ → Bool
same [] [] = true
same [] (y ∷ ys) = false
same (x ∷ xs) [] = false
same (x ∷ xs) (y ∷ ys) = if x == y then same xs ys else false

abbrev pub Entry : Type 0
Entry = List ℕ × Option ℕ

pub record ServletDispatch : Type 0 where
  pub datas : List Entry
  pub globs : List Entry
  pub default : Option ℕ

-- `m_datas[uri] = slt`, `m_datas.erase(uri)`, and `count` with `at`.
unfoldable pub assign : List ℕ → Option ℕ → List Entry → List Entry
assign uri slt [] = (uri, slt) ∷ []
assign uri slt (e ∷ es) =
    let rest = assign uri slt es in if same e.0 uri then (uri, slt) ∷ es else e ∷ rest

unfoldable pub erase : List ℕ → List Entry → List Entry
erase uri [] = []
erase uri (e ∷ es) = let rest = erase uri es in if same e.0 uri then rest else e ∷ rest

unfoldable pub at : List ℕ → List Entry → Option ℕ
at uri [] = none
at uri (e ∷ es) = let rest = at uri es in if same e.0 uri then e.1 else rest

unfoldable pub add_servlet : List ℕ → Option ℕ → ServletDispatch → ServletDispatch
add_servlet uri slt d = record d { datas = assign uri slt d.datas }

unfoldable pub del_servlet : List ℕ → ServletDispatch → ServletDispatch
del_servlet uri d = record d { datas = erase uri d.datas }

unfoldable pub get_servlet : List ℕ → ServletDispatch → Option ℕ
get_servlet uri d = at uri d.datas

-- `find_if` by the pattern itself, and `erase` of the one found.
unfoldable pub erase_first : List ℕ → List Entry → List Entry
erase_first uri [] = []
erase_first uri (e ∷ es) = let rest = erase_first uri es in if same e.0 uri then es else e ∷ rest

unfoldable pub add_glob_servlet : List ℕ → Option ℕ → ServletDispatch → ServletDispatch
add_glob_servlet uri slt d = record d { globs = erase_first uri d.globs ++ ((uri, slt) ∷ []) }

unfoldable pub del_glob_servlet : List ℕ → ServletDispatch → ServletDispatch
del_glob_servlet uri d = record d { globs = erase_first uri d.globs }

abbrev pub otherwise : Option ℕ → Option ℕ → Option ℕ
otherwise none other = other
otherwise (some slt) other = some slt

module _ (fnmatch : List ℕ → List ℕ → Bool) where
  unfoldable pub find_glob : List ℕ → List Entry → Option ℕ
  find_glob uri [] = none
  find_glob uri (e ∷ es) = let rest = find_glob uri es in if fnmatch e.0 uri then e.1 else rest

  unfoldable pub get_glob_servlet : List ℕ → ServletDispatch → Option ℕ
  get_glob_servlet uri d = find_glob uri d.globs

  unfoldable pub get_matched_servlet : List ℕ → ServletDispatch → Option ℕ
  get_matched_servlet uri d =
      otherwise (get_servlet uri d) (otherwise (get_glob_servlet uri d) d.default)
