-- ===== src/Http/Tables/RoundTrip.antt =====
-- Methods of East/http/Http.cc to texts and back.
use east.Common.{ℕ, ◌≡◌, ◌⊎◌, inl, inr, refl, Bool-cases, List, [], ◌∷◌}
use east.Common.Texts.{same_text, same_text_sound}
use east.Http.Tables

-- Every method comes back from its text.
returned :
    (m : Tables.HttpMethod) → Tables.string_to_http_method (Tables.http_method_to_string m) ≡ m
unfolding Tables.string_to_http_method Tables.http_method_to_string Tables.find_method
returned Tables.delete = refl
returned Tables.get = refl
returned Tables.head = refl
returned Tables.post = refl
returned Tables.put = refl
returned Tables.connect = refl
returned Tables.options = refl
returned Tables.trace = refl
returned Tables.copy = refl
returned Tables.lock = refl
returned Tables.mkcol = refl
returned Tables.move = refl
returned Tables.propfind = refl
returned Tables.proppatch = refl
returned Tables.search = refl
returned Tables.unlock = refl
returned Tables.bind = refl
returned Tables.rebind = refl
returned Tables.unbind = refl
returned Tables.acl = refl
returned Tables.report = refl
returned Tables.mkactivity = refl
returned Tables.checkout = refl
returned Tables.merge = refl
returned Tables.msearch = refl
returned Tables.notify = refl
returned Tables.subscribe = refl
returned Tables.unsubscribe = refl
returned Tables.patch = refl
returned Tables.purge = refl
returned Tables.mkcalendar = refl
returned Tables.link = refl
returned Tables.unlink = refl
returned Tables.source = refl
returned Tables.invalid = refl

found_method :
    (s : List ℕ) (ms : List Tables.HttpMethod)
    → (Tables.find_method s ms ≡ Tables.invalid)
      ⊎ (Tables.http_method_to_string (Tables.find_method s ms) ≡ s)
unfolding Tables.find_method
found_method s [] = inl refl
found_method s (m ∷ ms) = elim (Bool-cases (same_text (Tables.http_method_to_string m) s)) [
  | inl e ↦ rw (e) (inr (same_text_sound (Tables.http_method_to_string m) s e))
  | inr e ↦ rw (e) (found_method s ms)
]

-- Every method, the invalid one included, comes back from the text that it is written as; and a text gives either
-- the invalid method or one that is written as this text.
pub method_round_trip :
    (m : Tables.HttpMethod) (s : List ℕ)
    → (Tables.string_to_http_method (Tables.http_method_to_string m) ≡ m)
      × ((Tables.string_to_http_method s ≡ Tables.invalid)
          ⊎ (Tables.http_method_to_string (Tables.string_to_http_method s) ≡ s))
unfolding Tables.string_to_http_method
method_round_trip m s = (returned m, found_method s Tables.methods)
