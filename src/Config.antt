-- ===== src/Config.antt =====
-- East/src/Config.cc and East/include/Config.h: variables with listeners, and a file of settings loaded into them. A
-- text is the list of its codes.
pub mod Members
pub mod Paths
pub mod Variables
mod Tests
use east.Common.{
  ℕ, suc, ◌+◌, Bool, true, false, not, ◌&&◌, ◌||◌, Option, none, some, List, [], ◌∷◌, ◌++◌, map,
  if◌then◌else◌, leb, ◌==◌,
}
use east.Common.Texts.{same_text}
use east.Http.{tolower}

-- A `YAML::Node`: a scalar, a map, or anything else.
mutual
  pub data Node : Type 0 where
    scalar : List ℕ → Node
    mapping : Fields → Node
    other : List ℕ → Node

  pub data Fields : Type 0 where
    end : Fields
    field : List ℕ → Node → Fields → Fields

abbrev pub is_allowed : ℕ → Bool
is_allowed c = (leb 97 c && leb c 122) || ((c == 46) || ((c == 95) || (leb 48 c && leb c 57)))

-- Whether `find_first_not_of` finds nothing.
abbrev pub all_allowed : List ℕ → Bool
all_allowed [] = true
all_allowed (c ∷ s) = is_allowed c && all_allowed s

abbrev pub join : List ℕ → List ℕ → List ℕ
join [] key = key
join (c ∷ prefix) key = (c ∷ prefix) ++ 46 ∷ key

-- `ListAllMember`: what it adds to its output.
abbrev mutual
  pub list_all_member : List ℕ → Node → List (List ℕ × Node)
  list_all_member prefix (scalar s) = if all_allowed prefix then (prefix, scalar s) ∷ [] else []
  list_all_member prefix (other s) = if all_allowed prefix then (prefix, other s) ∷ [] else []
  list_all_member prefix (mapping fs) =
      let inside = list_fields prefix fs in
      if all_allowed prefix then (prefix, mapping fs) ∷ inside else []

  pub list_fields : List ℕ → Fields → List (List ℕ × Node)
  list_fields prefix end = []
  list_fields prefix (field key node fs) =
      list_all_member (join prefix key) node ++ list_fields prefix fs

-- `ConfigVar`, with its listeners by their numbers.
pub record ConfigVar (T : Type 0) : Type 0 where
  pub m_val : T
  pub m_cbs : List ℕ

-- A call of a listener, with the old value and the new one.
pub record Call (T : Type 0) : Type 0 where
  pub listener : ℕ
  pub old_v : T
  pub new_v : T

-- What a call leaves: the variable, the calls of listeners, and whether it went through without an exception.
pub record Result (T : Type 0) : Type 0 where
  pub var : ConfigVar T
  pub calls : List (Call T)
  pub is_ok : Bool

-- `==` of the values, what `FromStr` makes of a text, where none is an exception, how a node that is no scalar is
-- written, and whether a listener throws are the program's and the library's. All exceptions are `std::exception`s, and
-- a listener does not change the variable that calls it.
module _ {T : Type 0} (same_value : T → T → Bool) (from_str : List ℕ → List ℕ → Option T)
    (write_node : Node → List ℕ) (cb_throws : ℕ → T → T → Bool) where
  -- The loop over `m_cbs`: the calls, and whether it ended without an exception.
  abbrev pub call_all : T → T → List ℕ → List (Call T) × Bool
  call_all old new [] = ([], true)
  call_all old new (cb ∷ cbs) =
      let call : Call T = record { listener = cb; old_v = old; new_v = new } in
      let later = call_all old new cbs in
      if cb_throws cb old new then (call ∷ [], false) else (call ∷ later.0, later.1)

  abbrev pub after_calls : T → ConfigVar T → List (Call T) × Bool → Result T
  after_calls t var (calls, is_ok) = record {
    var = if is_ok then record var { m_val = t } else var;
    calls = calls;
    is_ok = is_ok;
  }

  unfoldable pub set_value : T → ConfigVar T → Result T
  set_value t var =
      if same_value t var.m_val
      then record { var = var; calls = []; is_ok = true }
      else after_calls t var (call_all var.m_val t var.m_cbs)

  abbrev pub set_parsed : Option T → ConfigVar T → Result T
  set_parsed none var = record { var = var; calls = []; is_ok = false }
  set_parsed (some t) var = set_value t var

  -- `fromString` of the variable with this name, which catches what `FromStr` and the listeners throw.
  unfoldable pub from_string : List ℕ → List ℕ → ConfigVar T → Result T
  from_string name str var = set_parsed (from_str name str) var

  -- The map of all variables.
  abbrev pub ConfigVarMap : Type 0
  ConfigVarMap = List (List ℕ × ConfigVar T)

  unfoldable pub loopup_base : List ℕ → ConfigVarMap → Option (ConfigVar T)
  loopup_base name [] = none
  loopup_base name ((k, var) ∷ datas) =
      let rest = loopup_base name datas in if same_text k name then some var else rest

  -- The variable of this name changed through its pointer, where there is one.
  unfoldable pub change : List ℕ → List ℕ → ConfigVarMap → ConfigVarMap
  change name str [] = []
  change name str ((k, var) ∷ datas) =
      let rest = change name str datas in
      if same_text k name then (k, (from_string name str var).var) ∷ datas else (k, var) ∷ rest

  abbrev pub text_of : Node → List ℕ
  text_of (scalar s) = s
  text_of node = write_node node

  abbrev pub load_member : List ℕ × Node → ConfigVarMap → ConfigVarMap
  load_member ([], v) datas = datas
  load_member (c ∷ k, v) datas = change (map tolower (c ∷ k)) (text_of v) datas

  abbrev pub load_members : List (List ℕ × Node) → ConfigVarMap → ConfigVarMap
  load_members [] datas = datas
  load_members (m ∷ members) datas = load_members members (load_member m datas)

  unfoldable pub load_from_yml : Node → ConfigVarMap → ConfigVarMap
  load_from_yml root datas = load_members (list_all_member [] root) datas
