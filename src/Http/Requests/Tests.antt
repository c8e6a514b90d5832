-- ===== src/Http/Requests/Tests.antt =====
-- Requests made on concrete inputs.
use east.Common.{◌≡◌, refl, true, some, [], ◌∷◌}
use east.Common.Texts.{codes}
use east.Http.{MapType, find, assign, has_value, case_insensitive_less, fold_case}
use east.Http.Maps.{IsSorted}
use east.Http.Tables.{post}
use east.Http.Requests.{make_request, add_header}
use east.Http.Requests.Hosts.{find-make_request}

-- The host is given, but empty.
abbrev given : MapType
given =
    (codes "Accept", codes "x") ∷ (codes "Connection", codes "keep-alive") ∷ (codes "HOST", []) ∷ []

given-IsSorted : IsSorted given
unfolding case_insensitive_less fold_case
given-IsSorted = ((refl, (refl, tt)), ((refl, tt), (tt, tt)))

find-make_request_example :
    find (codes "host") (make_request post (codes "east.org") (codes "/") [] [] given []).headers
    ≡ some (codes "east.org")
unfolding find case_insensitive_less fold_case
find-make_request_example =
    find-make_request post (codes "east.org") (codes "/") [] [] given [] given-IsSorted

-- The key that was written first stays, and the line on the connection is not among the headers.
made_run :
    (make_request post (codes "east.org") (codes "/") [] [] given []).headers
    ≡ (codes "Accept", codes "x") ∷ (codes "HOST", codes "east.org") ∷ []
unfolding make_request add_header assign case_insensitive_less fold_case
made_run = refl

has_run : has_value (codes "accept") (some []) given ≡ (true, some (codes "x"))
unfolding has_value find case_insensitive_less fold_case
has_run = refl
