-- ===== src/Config/Tests.antt =====
-- A file of settings on concrete inputs.
use east.Common.{ℕ, suc, ◌≡◌, refl, Bool, false, Option, none, some, List, [], ◌∷◌, length, ◌==◌}
use east.Common.Texts.{codes}
use east.Config.{
  Node, scalar, mapping, end, field, list_all_member, ConfigVar, set_value, from_string,
  loopup_base, load_from_yml,
}
use east.Config.Variables.{loopup_base-load_from_yml}

-- "tcp: {port: 80, Name: x}".
abbrev file : Node
file = mapping (
    field (codes "tcp")
      (mapping (
        field (codes "port") (scalar (codes "80")) (field (codes "Name") (scalar (codes "x")) end)))
      end)

-- A value is the length of its text, and no text is no value.
abbrev count : List ℕ → List ℕ → Option ℕ
count name [] = none
count name (c ∷ s) = some (suc (length s))

abbrev no_text : Node → List ℕ
no_text node = []

abbrev datas : List (List ℕ × ConfigVar ℕ)
datas =
    (codes "tcp.port", record { m_val = 9; m_cbs = 1 ∷ [] })
    ∷ (codes "tcp", record { m_val = 5; m_cbs = [] })
    ∷ []

-- Listener 3 throws.
abbrev third_throws : ℕ → ℕ → ℕ → Bool
third_throws cb old new = cb == 3

loopup_base-load_from_yml_example :
    loopup_base
      (λ (a b : ℕ). a == b)
      count
      no_text
      third_throws
      (codes "tcp.port")
      (load_from_yml (λ (a b : ℕ). a == b) count no_text third_throws file datas)
    ≡ some (record { m_val = 2; m_cbs = 1 ∷ [] })
unfolding loopup_base from_string set_value
loopup_base-load_from_yml_example =
    loopup_base-load_from_yml (λ (a b : ℕ). a == b) count no_text third_throws (codes "tcp.port")
      file datas

-- A name with a capital letter is not listed, and neither is what stands below it.
capital_run :
    list_all_member []
      (mapping (field (codes "Tcp") (mapping (field (codes "port") (scalar []) end)) end))
    ≡ ([], mapping (field (codes "Tcp") (mapping (field (codes "port") (scalar []) end)) end)) ∷ []
capital_run = refl

-- The listeners before the one that throws have heard of a value that the variable does not get.
refused_run :
    set_value
      (λ (a b : ℕ). a == b)
      count
      no_text
      third_throws
      7
      (record { m_val = 9; m_cbs = 2 ∷ 3 ∷ 4 ∷ [] })
    ≡ record {
      var = record { m_val = 9; m_cbs = 2 ∷ 3 ∷ 4 ∷ [] };
      calls =
          record { listener = 2; old_v = 9; new_v = 7 }
          ∷ record { listener = 3; old_v = 9; new_v = 7 }
          ∷ [];
      is_ok = false;
    }
unfolding set_value
refused_run = refl
