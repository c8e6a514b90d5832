-- ===== src/LogFormatter.antt =====
-- East/src/LogFormatter.cc: the pattern of a logger taken apart into items, and the items applied to an event. A
-- text is the list of its codes.
pub mod Tokens
pub mod Lines
pub mod Escapes
mod Tests
use east.Common.Texts.{codes}
use east.Common.{
  ℕ, zero, suc, ◌+◌, ◌-◌, Bool, true, false, not, ◌&&◌, ◌||◌, Option, none, some, List, [], ◌∷◌,
  ◌++◌, map, concat, if◌then◌else◌, leb, ◌==◌, length,
}

abbrev pub percent : ℕ
percent = 37

abbrev pub open_brace : ℕ
open_brace = 123

abbrev pub close_brace : ℕ
close_brace = 125

-- `isalpha` of the "C" locale.
abbrev pub isalpha : ℕ → Bool
isalpha c = (leb 65 c && leb c 90) || (leb 97 c && leb c 122)

-- An element of `vec_pattern`: type 0, and type 1.
pub data Piece : Type 0 where
  normal : List ℕ → Piece
  styled : List ℕ → List ℕ → Piece

-- What the inner loop leaves: the name, the format, whether `fmt_status` is 0, and the text from `j` on.
pub record Style : Type 0 where
  pub pattern : List ℕ
  pub fmt : List ℕ
  pub is_closed : Bool
  pub rest : List ℕ

abbrev pub longer_fmt : ℕ → Style → Style
longer_fmt c s = record s { fmt = if s.is_closed then c ∷ s.fmt else [] }

abbrev pub longer_name : ℕ → Style → Style
longer_name c s = record s { pattern = c ∷ s.pattern }

-- The inner loop with `fmt_status` 1, and with 0.
abbrev pub read_fmt : List ℕ → Style
read_fmt [] = record { pattern = []; fmt = []; is_closed = false; rest = [] }
read_fmt (c ∷ cs) =
    let later = longer_fmt c (read_fmt cs) in
    if c == close_brace
    then record { pattern = []; fmt = []; is_closed = true; rest = cs }
    else later

abbrev pub read_name : List ℕ → Style
read_name [] = record { pattern = []; fmt = []; is_closed = true; rest = [] }
read_name (c ∷ cs) =
    let later = longer_name c (read_name cs) in
    if c == open_brace
    then read_fmt cs
    else if isalpha c || (c == close_brace)
    then later
    else record { pattern = []; fmt = []; is_closed = true; rest = c ∷ cs }

abbrev pub is_percent : List ℕ → Bool
is_percent [] = false
is_percent (c ∷ cs) = c == percent

-- A round of the outer loop: a longer `no_style_str`, a style with the codes to skip, or the way out.
pub data Round : Type 0 where
  keep : List ℕ → Round
  emit : Style → ℕ → Round
  fail : Round

abbrev pub of_style : List ℕ → Style → Round
of_style cs s = if s.is_closed then emit s (length cs - length s.rest) else fail

abbrev pub round : ℕ → List ℕ → List ℕ → Round
round c cs no_style_str =
    if not (c == percent)
    then keep (no_style_str ++ c ∷ [])
    else if is_percent cs
    then keep (no_style_str ++ percent ∷ [])
    else of_style cs (read_name cs)

-- `vec_pattern` and `m_has_error`.
abbrev pub Parsed : Type 0
Parsed = List Piece × Bool

abbrev pub flush : List ℕ → List Piece
flush [] = []
flush (c ∷ cs) = normal (c ∷ cs) ∷ []

abbrev pub before : List Piece → Parsed → Parsed
before pieces (more, has_error) = (pieces ++ more, has_error)

-- "<error parse>".
abbrev pub error_parse : List ℕ
error_parse = 60 ∷ 101 ∷ 114 ∷ 114 ∷ 111 ∷ 114 ∷ 32 ∷ 112 ∷ 97 ∷ 114 ∷ 115 ∷ 101 ∷ 62 ∷ []

abbrev pub resume : Round → List ℕ → (ℕ → List ℕ → Parsed) → Parsed
resume (keep no_style_str') no_style_str next = next 0 no_style_str'
resume (emit s skip) no_style_str next =
    before (flush no_style_str ++ styled s.pattern s.fmt ∷ []) (next skip [])
resume fail no_style_str next = (normal error_parse ∷ flush no_style_str, true)

-- The outer loop on the text from `i` on; `skip` counts the codes that `i = j - 1` passes over.
abbrev pub parse : List ℕ → ℕ → List ℕ → Parsed
parse [] skip no_style_str = (flush no_style_str, false)
parse (c ∷ cs) (suc skip) no_style_str = parse cs skip no_style_str
parse (c ∷ cs) zero no_style_str = resume (round c cs no_style_str) no_style_str (parse cs)

pub data FormatItem : Type 0 where
  message level elapse logger_name thread_id fiber_id new_line file_name line tab : FormatItem
  date_time : List ℕ → FormatItem
  normal_string : List ℕ → FormatItem

-- "%Y-%m-%d %H:%M:%S".
abbrev pub default_date : List ℕ
default_date =
    37 ∷ 89 ∷ 45 ∷ 37 ∷ 109 ∷ 45 ∷ 37 ∷ 100 ∷ 32 ∷ 37 ∷ 72 ∷ 58 ∷ 37 ∷ 77 ∷ 58 ∷ 37 ∷ 83 ∷ []

abbrev pub date_time_item : List ℕ → FormatItem
date_time_item [] = date_time default_date
date_time_item (c ∷ format) = date_time (c ∷ format)

-- `s_format_items`, by the letters m, p, r, c, t, F, n, d, f, l and T.
abbrev pub item_of_letter : ℕ → List ℕ → Option FormatItem
item_of_letter c fmt =
    if c == 109
    then some message
    else if c == 112
    then some level
    else if c == 114
    then some elapse
    else if c == 99
    then some logger_name
    else if c == 116
    then some thread_id
    else if c == 70
    then some fiber_id
    else if c == 110
    then some new_line
    else if c == 100
    then some (date_time_item fmt)
    else if c == 102
    then some file_name
    else if c == 108
    then some line
    else if c == 84
    then some tab
    else none

abbrev pub find_item : List ℕ → List ℕ → Option FormatItem
find_item [] fmt = none
find_item (c ∷ []) fmt = item_of_letter c fmt
find_item (c ∷ d ∷ pattern) fmt = none

-- "<<error_format %" and ">>".
abbrev pub error_format : List ℕ → List ℕ
error_format pattern =
    (60 ∷ 60 ∷ 101 ∷ 114 ∷ 114 ∷ 111 ∷ 114 ∷ 95 ∷ 102 ∷ 111 ∷ 114 ∷ 109 ∷ 97 ∷ 116 ∷ 32 ∷ 37
      ∷ pattern)
    ++ 62 ∷ 62 ∷ []

abbrev pub add_item : List ℕ → Option FormatItem → List FormatItem × Bool → List FormatItem × Bool
add_item pattern none (items, has_error) = (normal_string (error_format pattern) ∷ items, true)
add_item pattern (some item) (items, has_error) = (item ∷ items, has_error)

-- The last loop of `init`: `m_items`, and `m_has_error`.
abbrev pub add_items : List Piece → Bool → List FormatItem × Bool
add_items [] has_error = ([], has_error)
add_items (normal s ∷ pieces) has_error =
    add_item s (some (normal_string s)) (add_items pieces has_error)
add_items (styled pattern fmt ∷ pieces) has_error =
    add_item pattern (find_item pattern fmt) (add_items pieces has_error)

abbrev pub items_of : Parsed → List FormatItem × Bool
items_of (pieces, has_error) = add_items pieces has_error

unfoldable pub init : List ℕ → List FormatItem × Bool
init m_pattern = items_of (parse m_pattern 0 [])

-- The levels that `toStr` asserts: the members of `LogLevel::Level` but NONE.
pub data Level : Type 0 where
  level_debug level_info level_warn level_error level_fatal : Level

-- `LogLevel::toStr`.
abbrev pub to_str : Level → List ℕ
to_str level_debug = codes "DEBUG"
to_str level_info = codes "INFO"
to_str level_warn = codes "WARN"
to_str level_error = codes "ERROR"
to_str level_fatal = codes "FATAL"

-- The texts that `<<` writes for the members of an event; the level is not one that an item asks for.
pub record LogEvent : Type 0 where
  pub content : List ℕ
  pub elapse_text : List ℕ
  pub logger_text : List ℕ
  pub thread_text : List ℕ
  pub fiber_text : List ℕ
  pub file_text : List ℕ
  pub line_text : List ℕ
  pub time : ℕ

-- `strftime` in local time, cut to the buffer of 64 bytes.
module _ (strftime : List ℕ → ℕ → List ℕ) where
  abbrev pub format_item : Level → LogEvent → FormatItem → List ℕ
  format_item lv event message = event.content
  format_item lv event level = to_str lv
  format_item lv event elapse = event.elapse_text
  format_item lv event logger_name = event.logger_text
  format_item lv event thread_id = event.thread_text
  format_item lv event fiber_id = event.fiber_text
  format_item lv event new_line = 10 ∷ []
  format_item lv event file_name = event.file_text
  format_item lv event line = event.line_text
  format_item lv event tab = 9 ∷ []
  format_item lv event (date_time format) = strftime format event.time
  format_item lv event (normal_string s) = s

  -- `format` of a logger and an event that are not null, at the level that the caller gives.
  unfoldable pub format : List FormatItem → Level → LogEvent → List ℕ
  format m_items lv event = concat (map (format_item lv event) m_items)
