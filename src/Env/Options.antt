-- ===== src/Env/Options.antt =====
-- Command lines written from options, and what `init` of East/src/env.cc reads from them.
use east.Common.{
  ℕ, ◌≡◌, refl, sym, ap, ◌∙◌, inl, inr, true, false, Bool-cases, Option, none, some, List, [], ◌∷◌,
  ◌++◌, if◌then◌else◌, ◌==◌,
}
use east.Common.Texts.{same_text, same_text_sound}
use east.Env.{Text, Args, add, find, Reader, add_pending, dash, read_arg, go_on, read_args, init}

-- An option alone, and one with a value.
pub data Given : Type 0 where
  flag : ℕ → Text → Given
  setting : ℕ → Text → Text → Given

abbrev pub written : Given → List Text
written (flag c name) = (dash ∷ c ∷ name) ∷ []
written (setting c name value) = (dash ∷ c ∷ name) ∷ value ∷ []

abbrev pub command_line : List Given → List Text
command_line [] = []
command_line (o ∷ os) = written o ++ command_line os

-- The value of an option, empty for a flag.
abbrev pub name_of : Given → Text
name_of (flag c name) = c ∷ name
name_of (setting c name value) = c ∷ name

abbrev pub value_of : Given → Text
value_of (flag c name) = []
value_of (setting c name value) = value

-- A value does not begin with a dash.
abbrev pub IsValue : Text → Type 0
IsValue [] = Unit {0}
IsValue (c ∷ value) = (c == dash) ≡ false

abbrev pub AllValues : List Given → Type 0
AllValues [] = Unit {0}
AllValues (flag c name ∷ os) = AllValues os
AllValues (setting c name value ∷ os) = IsValue value × AllValues os

-- The options added one after the other.
abbrev pub add_all : List Given → Args → Args
add_all [] m_args = m_args
add_all (o ∷ os) m_args = add_all os (add (name_of o) (value_of o) m_args)

abbrev pending : Option Text → Args → Reader
pending key m_args = record { key = key; m_args = m_args }

value_read :
    (c : ℕ) (name value : Text) (m_args : Args)
    → IsValue value
    → read_arg value (pending (some (c ∷ name)) m_args)
      ≡ some (pending none (add (c ∷ name) value m_args))
value_read c name [] m_args h = refl
value_read c name (d ∷ value) m_args h = rw (h) refl

-- `key` may still wait for its value, which the next option shows to be empty.
read_options :
    (os : List Given) (key : Option Text) (m_args : Args)
    → AllValues os
    → read_args (command_line os) (pending key m_args)
      ≡ (add_all os (add_pending key [] m_args), true)
read_options [] key m_args h = refl
read_options (flag c name ∷ os) key m_args h =
    read_options os (some (c ∷ name)) (add_pending key [] m_args) h
read_options (setting c name value ∷ os) key m_args (v, h) =
    ap
      (λ r.
        go_on (pending (some (c ∷ name)) (add_pending key [] m_args)) r
          (read_args (command_line os)))
      (value_read c name value (add_pending key [] m_args) v)
    ∙ read_options os none (add (c ∷ name) value (add_pending key [] m_args)) h

same_text-swap : (k key q : Text) → same_text k key ≡ true → same_text k q ≡ same_text key q
same_text-swap k key q e = ap (λ t. same_text t q) (same_text_sound k key e)

find-add :
    (q key val : Text) (m_args : Args)
    → find q (add key val m_args) ≡ (if same_text key q then some val else find q m_args)
unfolding find add
find-add q key val [] = refl
find-add q key val ((k, v) ∷ m_args) = elim (Bool-cases (same_text k key)) [
  | inl e ↦
      rw (e, same_text-swap k key q e)
        (elim (Bool-cases (same_text key q)) [ inl d ↦ rw (d) refl | inr d ↦ rw (d) refl ])
  | inr e ↦ rw (e) (elim (Bool-cases (same_text k q)) [
    | inl d ↦ rw (d, key_differs k key q e d) refl
    | inr d ↦ rw (d) (find-add q key val m_args)
  ])
]
  where
    key_differs :
        (k key q : Text) → same_text k key ≡ false → same_text k q ≡ true → same_text key q ≡ false
    key_differs k key q h h' = elim (Bool-cases (same_text key q)) [
      | inl e ↦ absurd (cc (sym (ap (same_text k) (same_text_sound key q e)) ∙ h, h'))
      | inr e ↦ e
    ]

-- The last value that an option is given, and else what was there.
abbrev pub last_given : Text → List Given → Option Text → Option Text
last_given q [] before = before
last_given q (o ∷ os) before =
    last_given q os (if same_text (name_of o) q then some (value_of o) else before)

find-add_all :
    (q : Text) (os : List Given) (m_args : Args)
    → find q (add_all os m_args) ≡ last_given q os (find q m_args)
find-add_all q [] m_args = refl
find-add_all q (o ∷ os) m_args =
    find-add_all q os (add (name_of o) (value_of o) m_args)
    ∙ ap (last_given q os) (find-add q (name_of o) (value_of o) m_args)

-- A command line of options, each alone or with a value that does not begin with a dash, is accepted, and afterwards
-- every option has the last value that it was given there, the empty one where it stood alone; an option that is not
-- there is as it was before.
pub init-command_line :
    (q : Text) (os : List Given) (m_args : Args)
    → AllValues os
    → ((init (command_line os) m_args).1 ≡ true)
      × (find q (init (command_line os) m_args).0 ≡ last_given q os (find q m_args))
unfolding init
init-command_line q os m_args h =
    let read = read_options os none m_args h in
    (ap (λ r. r.1) read, ap (λ r. find q r.0) read ∙ find-add_all q os m_args)
