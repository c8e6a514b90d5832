-- ===== src/Http/Tests.antt =====
-- Messages on concrete inputs.
use east.Common.{◌≡◌, refl, true, some, List, [], ◌∷◌, ◌++◌}
use east.Common.Texts.{codes}
use east.Address.{equal}
use east.Http.{find, assign, erase, case_insensitive_less, fold_case}
use east.Http.Maps.{IsSorted}
use east.Http.Maps.Edits.{Edit, sets, deletes, edited, find-edited}
use east.Http.Tables.{
  invalid, http_method_to_string, string_to_http_method, find_method, http_status_to_string,
}
use east.Http.Messages.{new_request, dump_request}

-- "Host" is assigned twice, once in lower case, and "Via" is deleted.
abbrev edits : List Edit
edits =
    sets (codes "hOST") (codes "b")
    ∷ deletes (codes "VIA")
    ∷ sets (codes "Via") (codes "x")
    ∷ sets (codes "Host") (codes "a")
    ∷ []

find-edited_example :
    (find (codes "host") (edited edits) ≡ some (codes "b")) × IsSorted (edited edits)
unfolding fold_case equal
find-edited_example = find-edited (codes "host") edits

-- The key that was there first stays.
first_key_run : edited edits ≡ (codes "Host", codes "b") ∷ []
unfolding assign erase case_insensitive_less fold_case
first_key_run = refl

-- The method of the discovery of services is not known by its name.
msearch_run : string_to_http_method (codes "M-SEARCH") ≡ invalid
unfolding string_to_http_method find_method http_method_to_string
msearch_run = refl

multi_status_run : http_status_to_string 207 ≡ codes "Multi - Status"
unfolding http_status_to_string
multi_status_run = refl

-- A fragment leaves its mark in the request line, and is lost.
fragment_run :
    dump_request (record (new_request 17 true) { fragment = codes "top" })
    ≡ codes "GET /# HTTP/1.1" ++ (13 ∷ 10 ∷ codes "connnection: close") ++ 13 ∷ 10 ∷ 13 ∷ 10 ∷ []
unfolding dump_request http_method_to_string
fragment_run = refl
