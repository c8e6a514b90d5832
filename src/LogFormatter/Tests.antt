-- ===== src/LogFormatter/Tests.antt =====
-- The log formatter on concrete inputs.
use east.Common.{ℕ, ◌≡◌, refl, true, false, List, [], ◌∷◌, ◌++◌}
use east.LogFormatter.{LogEvent, level_debug, init, format, parse, normal, error_parse}
use east.LogFormatter.Lines.{words, field, date, body, log_level, logged_line}

abbrev event : LogEvent
event = record {
  content = 104 ∷ 105 ∷ [];
  elapse_text = 48 ∷ [];
  logger_text = 114 ∷ [];
  thread_text = 49 ∷ [];
  fiber_text = 50 ∷ [];
  file_text = 102 ∷ [];
  line_text = 51 ∷ [];
  time = 7;
}

-- A clock that writes the format and the time.
abbrev echo : List ℕ → ℕ → List ℕ
echo fmt time = fmt ++ time ∷ []

logged_line_example :
    ((init (37 ∷ 112 ∷ 32 ∷ 37 ∷ 100 ∷ 123 ∷ 72 ∷ 125 ∷ 37 ∷ 109 ∷ [])).1 ≡ false)
    × (format echo
          (init (37 ∷ 112 ∷ 32 ∷ 37 ∷ 100 ∷ 123 ∷ 72 ∷ 125 ∷ 37 ∷ 109 ∷ [])).0
          level_debug
          event
        ≡ 68 ∷ 69 ∷ 66 ∷ 85 ∷ 71 ∷ 32 ∷ 72 ∷ 7 ∷ 104 ∷ 105 ∷ [])
logged_line_example =
    logged_line echo (field log_level ∷ words 32 [] ∷ date 72 [] ∷ field body ∷ []) level_debug
      event
      (
        ((refl, tt), (refl, refl)),
        (((refl, tt), tt), (((refl, tt), (refl, tt)), (((refl, tt), tt), tt))),
      )

-- "a%m{": the text in front of the error comes behind it.
open_brace_run :
    parse (97 ∷ 37 ∷ 109 ∷ 123 ∷ []) 0 [] ≡ (normal error_parse ∷ normal (97 ∷ []) ∷ [], true)
open_brace_run = refl

-- "5%% %m".
two_percents_run : (init (53 ∷ 37 ∷ 37 ∷ 32 ∷ 37 ∷ 109 ∷ [])).1 ≡ true
unfolding init
two_percents_run = refl
