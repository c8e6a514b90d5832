-- ===== src/Env.antt =====
-- East/src/env.cc: the options of the command line. A text is the list of its codes.
pub mod Options
mod Tests
use east.Common.{
  ℕ, Bool, true, false, not, Option, none, some, List, [], ◌∷◌, ◌++◌, if◌then◌else◌, ◌==◌,
}
use east.Common.Texts.{same_text}

abbrev pub Text : Type 0
Text = List ℕ

-- `m_args`, a `std::map`.
abbrev pub Args : Type 0
Args = List (Text × Text)

-- `add`, `del`, and the search of `has` and `get`.
unfoldable pub add : Text → Text → Args → Args
add key val [] = (key, val) ∷ []
add key val ((k, v) ∷ m_args) =
    let rest = add key val m_args in if same_text k key then (k, val) ∷ m_args else (k, v) ∷ rest

unfoldable pub del : Text → Args → Args
del key [] = []
del key ((k, v) ∷ m_args) =
    let rest = del key m_args in if same_text k key then m_args else (k, v) ∷ rest

unfoldable pub find : Text → Args → Option Text
find key [] = none
find key ((k, v) ∷ m_args) = let rest = find key m_args in if same_text k key then some v else rest

abbrev pub is_some : Option Text → Bool
is_some none = false
is_some (some v) = true

unfoldable pub has : Text → Args → Bool
has key m_args = is_some (find key m_args)

abbrev pub value_or : Text → Option Text → Text
value_or default_val none = default_val
value_or default_val (some v) = v

unfoldable pub get : Text → Text → Args → Text
get key default_val m_args = value_or default_val (find key m_args)

-- `key`, null or behind the dash of an argument, with the options so far.
pub record Reader : Type 0 where
  pub key : Option Text
  pub m_args : Args

abbrev pub add_pending : Option Text → Text → Args → Args
add_pending none val m_args = m_args
add_pending (some key) val m_args = add key val m_args

abbrev pub dash : ℕ
dash = 45

-- One argument: what `init` goes on with, or nothing where it returns false.
abbrev pub dashed : Text → Reader → Option Reader
dashed [] r = none
dashed (c ∷ name) r =
    some (record { key = some (c ∷ name); m_args = add_pending r.key [] r.m_args })

abbrev pub valued : Text → Option Text → Args → Option Reader
valued arg none m_args = none
valued arg (some key) m_args = some (record { key = none; m_args = add key arg m_args })

abbrev pub read_arg : Text → Reader → Option Reader
read_arg [] r = valued [] r.key r.m_args
read_arg (c ∷ arg) r = if c == dash then dashed arg r else valued (c ∷ arg) r.key r.m_args

abbrev pub go_on : Reader → Option Reader → (Reader → Args × Bool) → Args × Bool
go_on r none next = (r.m_args, false)
go_on r (some r') next = next r'

abbrev pub read_args : List Text → Reader → Args × Bool
read_args [] r = (add_pending r.key [] r.m_args, true)
read_args (arg ∷ argv) r = go_on r (read_arg arg r) (read_args argv)

-- The options after `init`, and whether it returns true; `argv` is without the program.
unfoldable pub init : List Text → Args → Args × Bool
init argv m_args = read_args argv (record { key = none; m_args = m_args })
