-- ===== src/Env/Tests.antt =====
-- Command lines on concrete inputs.
use east.Common.{◌≡◌, refl, true, false, some, [], ◌∷◌}
use east.Common.Texts.{codes}
use east.Env.{init, find, add, get, has, del}
use east.Env.Options.{flag, setting, init-command_line}

-- "-d -c conf -p" and later "-c other".
init-command_line_example :
    ((init
        (codes "-d" ∷ codes "-c" ∷ codes "conf" ∷ codes "-p" ∷ codes "-c" ∷ codes "other" ∷ [])
        []).1
      ≡ true)
    × (find
          (codes "c")
          (init
            (codes "-d" ∷ codes "-c" ∷ codes "conf" ∷ codes "-p" ∷ codes "-c" ∷ codes "other" ∷ [])
            []).0
        ≡ some (codes "other"))
unfolding find
init-command_line_example =
    init-command_line (codes "c")
      (flag 100 []
        ∷ setting 99 [] (codes "conf")
        ∷ flag 112 []
        ∷ setting 99 [] (codes "other")
        ∷ [])
      [] (refl, (refl, tt))

-- A value with a dash is the next option.
negative_run :
    init (codes "-n" ∷ codes "-5" ∷ []) [] ≡ ((codes "n", []) ∷ (codes "5", []) ∷ [], true)
unfolding init add
negative_run = refl

-- A value without an option ends the reading, and what was read stays.
no_option_run :
    init (codes "-n" ∷ codes "1" ∷ codes "2" ∷ codes "-d" ∷ []) []
    ≡ ((codes "n", codes "1") ∷ [], false)
unfolding init add
no_option_run = refl

deleted_run : has (codes "n") (del (codes "n") (add (codes "n") [] [])) ≡ false
unfolding has find del add
deleted_run = refl

default_run : get (codes "n") (codes "x") [] ≡ codes "x"
unfolding get find
default_run = refl
