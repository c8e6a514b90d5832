-- ===== src/LogFormatter/Lines.antt =====
-- The line that `format` of East/src/LogFormatter.cc gives for an event, from the pattern on.
use mathlib.Core.Path.{subst}
use east.Common.{ℕ, ◌≡◌, refl, sym, ap, Bool, false, List, [], ◌∷◌, ◌++◌, map, concat}
use east.LogFormatter.{
  Piece, FormatItem, items_of, add_items, init, default_date, Level, to_str, LogEvent, format_item,
  format,
}
use east.LogFormatter.Tokens.{
  Token, text, plain, formatted, print_all, piece, IsPattern, parse_tokens,
}

-- What a pattern may ask of an event, as the comment in `init` lists it.
pub data Field : Type 0 where
  body log_level since_start name thread fiber end_of_line now file line_number tabulator : Field

abbrev letter : Field → ℕ
letter body = 109
letter log_level = 112
letter since_start = 114
letter name = 99
letter thread = 116
letter fiber = 70
letter end_of_line = 110
letter now = 100
letter file = 102
letter line_number = 108
letter tabulator = 84

-- A text, a field, and the time in a format.
pub data Entry : Type 0 where
  words : ℕ → List ℕ → Entry
  field : Field → Entry
  date : ℕ → List ℕ → Entry

abbrev pub token : Entry → Token
token (words c s) = text c s
token (field f) = plain (letter f) []
token (date c s) = formatted (letter now) [] (c ∷ s)

module _ (strftime : List ℕ → ℕ → List ℕ) where
  abbrev pub value : Level → LogEvent → Entry → List ℕ
  value lv event (words c s) = c ∷ s
  value lv event (field body) = event.content
  value lv event (field log_level) = to_str lv
  value lv event (field since_start) = event.elapse_text
  value lv event (field name) = event.logger_text
  value lv event (field thread) = event.thread_text
  value lv event (field fiber) = event.fiber_text
  value lv event (field end_of_line) = 10 ∷ []
  value lv event (field now) = strftime default_date event.time
  value lv event (field file) = event.file_text
  value lv event (field line_number) = event.line_text
  value lv event (field tabulator) = 9 ∷ []
  value lv event (date c s) = strftime (c ∷ s) event.time

  abbrev Lines : Level → LogEvent → List Entry → List FormatItem × Bool → Type 0
  Lines lv event es (items, has_error) =
      (has_error ≡ false)
      × (concat (map (format_item strftime lv event) items) ≡ concat (map (value lv event) es))

  -- One more item in front, which writes `v`.
  one_more :
      (lv : Level) (event : LogEvent) (es : List Entry) (items : List FormatItem × Bool)
      (v : List ℕ)
      → Lines lv event es items
      → (items.1 ≡ false)
        × (v ++ concat (map (format_item strftime lv event) items.0)
            ≡ v ++ concat (map (value lv event) es))
  one_more lv event es items v (no_error, same) = (no_error, ap (λ l. v ++ l) same)

  entry_line :
      (lv : Level) (event : LogEvent) (e : Entry) (es : List Entry) (pieces : List Piece)
      → Lines lv event es (add_items pieces false)
      → Lines lv event (e ∷ es) (add_items (piece (token e) ∷ pieces) false)
  entry_line lv event (words c s) es pieces h =
      one_more lv event es (add_items pieces false) (c ∷ s) h
  entry_line lv event (date c s) es pieces h =
      one_more lv event es (add_items pieces false) (value lv event (date c s)) h
  entry_line lv event (field body) es pieces h =
      one_more lv event es (add_items pieces false) (value lv event (field body)) h
  entry_line lv event (field log_level) es pieces h =
      one_more lv event es (add_items pieces false) (value lv event (field log_level)) h
  entry_line lv event (field since_start) es pieces h =
      one_more lv event es (add_items pieces false) (value lv event (field since_start)) h
  entry_line lv event (field name) es pieces h =
      one_more lv event es (add_items pieces false) (value lv event (field name)) h
  entry_line lv event (field thread) es pieces h =
      one_more lv event es (add_items pieces false) (value lv event (field thread)) h
  entry_line lv event (field fiber) es pieces h =
      one_more lv event es (add_items pieces false) (value lv event (field fiber)) h
  entry_line lv event (field end_of_line) es pieces h =
      one_more lv event es (add_items pieces false) (value lv event (field end_of_line)) h
  entry_line lv event (field now) es pieces h =
      one_more lv event es (add_items pieces false) (value lv event (field now)) h
  entry_line lv event (field file) es pieces h =
      one_more lv event es (add_items pieces false) (value lv event (field file)) h
  entry_line lv event (field line_number) es pieces h =
      one_more lv event es (add_items pieces false) (value lv event (field line_number)) h
  entry_line lv event (field tabulator) es pieces h =
      one_more lv event es (add_items pieces false) (value lv event (field tabulator)) h

  entries_line :
      (lv : Level) (event : LogEvent) (es : List Entry)
      → Lines lv event es (add_items (map piece (map token es)) false)
  entries_line lv event [] = (refl, refl)
  entries_line lv event (e ∷ es) =
      entry_line lv event e es (map piece (map token es)) (entries_line lv event es)

  -- The line of an event is what the parts of the pattern say, one behind the other: each text as it stands, the
  -- level that the caller gives, DEBUG to FATAL, whatever level the event has, each other letter the member of the event that it is
  -- documented to mean, and the time in its format or in the default one; and the pattern has no error. The pattern
  -- is one whose parts can be told apart.
  pub logged_line :
      (es : List Entry) (lv : Level) (event : LogEvent)
      → IsPattern (map token es)
      → ((init (print_all (map token es))).1 ≡ false)
        × (format strftime (init (print_all (map token es))).0 lv event
            ≡ concat (map (value lv event) es))
  unfolding init format
  logged_line es lv event h =
      subst (λ p. Lines lv event es (items_of p)) (sym (parse_tokens (map token es) h))
        (entries_line lv event es)
