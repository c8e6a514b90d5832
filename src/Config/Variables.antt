-- ===== src/Config/Variables.antt =====
-- What loading a file makes of each variable of East/src/Config.cc.
use mathlib.Core.Option
use east.Common.{
  ℕ, ◌≡◌, refl, sym, ap, ◌∙◌, inl, inr, Bool, true, false, Bool-cases, Option, none, some, List, [],
  ◌∷◌, map, not, ◌||◌, if◌then◌else◌,
}
use east.Common.Texts.{same_text, same_text_sound}
use east.Http.{tolower}
use east.Config.{
  Node, ConfigVar, call_all, set_value, set_parsed, from_string, loopup_base, change, text_of,
  load_members, load_from_yml, list_all_member,
}
use east.Config.Members.{AllAllowed, list_all_member-AllAllowed, lower_allowed}
use east.Config.Paths.{named, nodes_for, named-list_all_member}

module _ {T : Type 0} (same_value : T → T → Bool) (from_str : List ℕ → List ℕ → Option T)
    (write_node : Node → List ℕ) (cb_throws : ℕ → T → T → Bool) where
  -- Whether some listener throws at a change from `old` to `new`.
  abbrev pub any_throws : T → T → List ℕ → Bool
  any_throws old new [] = false
  any_throws old new (cb ∷ cbs) = cb_throws cb old new || any_throws old new cbs

  -- The value after a text: the old one if the text has no value, the same value, or one that a listener refuses by an
  -- exception; and otherwise the value of the text.
  abbrev pub chosen : List ℕ → T → Option T → T
  chosen cbs v none = v
  chosen cbs v (some t) = if same_value t v then v else if any_throws v t cbs then v else t

  abbrev with_value : ConfigVar T → T → ConfigVar T
  with_value var v = record { m_val = v; m_cbs = var.m_cbs }

  -- The value after the texts of some nodes, one after the other.
  abbrev pub settled : List ℕ → List ℕ → List Node → T → T
  settled name cbs [] v = v
  settled name cbs (node ∷ nodes) v =
      settled name cbs nodes
        (chosen cbs v (from_str name (text_of same_value from_str write_node cb_throws node)))

  abbrev parsed_by : List ℕ → List ℕ → ConfigVar T → ConfigVar T
  parsed_by name str var = (from_string same_value from_str write_node cb_throws name str var).var

  call_all-any_throws :
      (old new : T) (cbs : List ℕ)
      → (call_all same_value from_str write_node cb_throws old new cbs).1
        ≡ not (any_throws old new cbs)
  call_all-any_throws old new [] = refl
  call_all-any_throws old new (cb ∷ cbs) = elim (Bool-cases (cb_throws cb old new)) [
    | inl e ↦ rw (e) refl
    | inr e ↦ rw (e) (call_all-any_throws old new cbs)
  ]

  unless_thrown :
      (b : Bool) (t : T) (var : ConfigVar T)
      → (if not b then record var { m_val = t } else var)
        ≡ with_value var (if b then var.m_val else t)
  unless_thrown true t var = refl
  unless_thrown false t var = refl

  set_parsed-chosen :
      (o : Option T) (var : ConfigVar T)
      → (set_parsed same_value from_str write_node cb_throws o var).var
        ≡ with_value var (chosen var.m_cbs var.m_val o)
  unfolding set_value
  set_parsed-chosen none var = refl
  set_parsed-chosen (some t) var = elim (Bool-cases (same_value t var.m_val)) [
    | inl e ↦ rw (e) refl
    | inr e ↦ rw (e) (
        ap (λ (b : Bool). if b then record var { m_val = t } else var)
          (call_all-any_throws var.m_val t var.m_cbs)
        ∙ unless_thrown (any_throws var.m_val t var.m_cbs) t var)
  ]

  parsed_by-chosen :
      (name str : List ℕ) (var : ConfigVar T)
      → parsed_by name str var ≡ with_value var (chosen var.m_cbs var.m_val (from_str name str))
  unfolding from_string
  parsed_by-chosen name str var = set_parsed-chosen (from_str name str) var

  abbrev Vars : Type 0
  Vars = List (List ℕ × ConfigVar T)

  abbrev lookup : List ℕ → Vars → Option (ConfigVar T)
  lookup = loopup_base same_value from_str write_node cb_throws

  abbrev changed : List ℕ → List ℕ → Vars → Vars
  changed = change same_value from_str write_node cb_throws

  not_same : (k n q : List ℕ) → same_text k n ≡ false → same_text k q ≡ true → same_text n q ≡ false
  not_same k n q h h' = elim (Bool-cases (same_text n q)) [
    | inl e ↦ absurd (cc (sym (ap (same_text k) (same_text_sound n q e)) ∙ h, h'))
    | inr e ↦ e
  ]

  loopup_base-change :
      (q n str : List ℕ) (datas : Vars)
      → lookup q (changed n str datas)
        ≡ (if same_text n q then Option.map (parsed_by n str) (lookup q datas) else lookup q datas)
  unfolding loopup_base change
  loopup_base-change q n str [] = elim (Bool-cases (same_text n q)) [
    | inl e ↦ rw (e) refl
    | inr e ↦ rw (e) refl
  ]
  loopup_base-change q n str ((k, var) ∷ datas) = elim (Bool-cases (same_text k n)) [
    | inl e ↦ rw (e) (elim (Bool-cases (same_text k q)) [
      | inl d ↦ rw (d, sym (ap (λ t. same_text t q) (same_text_sound k n e)) ∙ d) refl
      | inr d ↦ rw (d, sym (ap (λ t. same_text t q) (same_text_sound k n e)) ∙ d) refl
    ])
    | inr e ↦ rw (e) (elim (Bool-cases (same_text k q)) [
      | inl d ↦ rw (d, not_same k n q e d) refl
      | inr d ↦ rw (d) (loopup_base-change q n str datas)
    ])
  ]

  abbrev settle : List ℕ → List Node → ConfigVar T → ConfigVar T
  settle name nodes var = with_value var (settled name var.m_cbs nodes var.m_val)

  abbrev text : Node → List ℕ
  text v = text_of same_value from_str write_node cb_throws v

  map-map :
      (name : List ℕ) (v : Node) (nodes : List Node) (o : Option (ConfigVar T))
      → Option.map (settle name nodes) (Option.map (parsed_by name (text v)) o)
        ≡ Option.map (settle name (v ∷ nodes)) o
  map-map name v nodes none = refl
  map-map name v nodes (some var) =
      ap (λ w. some (settle name nodes w)) (parsed_by-chosen name (text v) var)

  map_id : (name : List ℕ) (o : Option (ConfigVar T)) → o ≡ Option.map (settle name []) o
  map_id name none = refl
  map_id name (some var) = refl

  one_name :
      (name k : List ℕ) (v : Node) (nodes : List Node) (o : Option (ConfigVar T))
      → Option.map
          (settle name nodes)
          (if same_text k name then Option.map (parsed_by k (text v)) o else o)
        ≡ Option.map (settle name (if same_text k name then v ∷ nodes else nodes)) o
  one_name name k v nodes o = elim (Bool-cases (same_text k name)) [
    | inl e ↦ rw (e) (
        ap (λ n. Option.map (settle name nodes) (Option.map (parsed_by n (text v)) o))
          (same_text_sound k name e)
        ∙ map-map name v nodes o)
    | inr e ↦ rw (e) refl
  ]

  load_members_lem :
      (name : List ℕ) (members : List (List ℕ × Node)) (datas : Vars)
      → AllAllowed members
      → lookup name (load_members same_value from_str write_node cb_throws members datas)
        ≡ Option.map (settle name (named name members)) (lookup name datas)
  load_members_lem name [] datas h = map_id name (lookup name datas)
  load_members_lem name (([], v) ∷ members) datas (h, hs) = load_members_lem name members datas hs
  load_members_lem name ((c ∷ k, v) ∷ members) datas (h, hs) =
      load_members_lem name members (changed (map tolower (c ∷ k)) (text v) datas) hs
      ∙ ap (Option.map (settle name (named name members))) (
          ap (λ n. lookup name (changed n (text v) datas)) (lower_allowed (c ∷ k) h)
          ∙ loopup_base-change name (c ∷ k) (text v) datas)
      ∙ one_name name (c ∷ k) v (named name members) (lookup name datas)

  -- Loading a file acts on each variable by itself. A name without a variable stays without one. A variable keeps its
  -- listeners, and gets in the order of the file the texts of the nodes whose keys, joined by full stops, are its name:
  -- all of them if the name has only the characters that `ListAllMember` allows, which are no capital letters, and
  -- none otherwise. A text leaves the value as it is if it cannot be parsed, if its value is the same, or if some
  -- listener throws; otherwise the variable has the value of the text.
  pub loopup_base-load_from_yml :
      (name : List ℕ) (root : Node) (datas : Vars)
      → lookup name (load_from_yml same_value from_str write_node cb_throws root datas)
        ≡ Option.map
            (λ var. record {
              m_val = settled name var.m_cbs (nodes_for name root) var.m_val;
              m_cbs = var.m_cbs;
            })
            (lookup name datas)
  unfolding load_from_yml
  loopup_base-load_from_yml name root datas =
      load_members_lem name (list_all_member [] root) datas (list_all_member-AllAllowed [] root)
      ∙ ap (λ l. Option.map (settle name l) (lookup name datas)) (named-list_all_member name root)
