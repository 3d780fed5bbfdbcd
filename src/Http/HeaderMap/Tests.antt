-- ===== src/Http/HeaderMap/Tests.antt =====
-- A header map with two inline headers.
use meliproxy.Http.HeaderMap.{
  StaticLookupEntry, Response, HeaderMap, static_lookup_table, find_response, insert_by_key, remove,
  add, add_all, new_entry, maybe_create_inline,
}
use meliproxy.Http.HeaderMap.Lookup.{find_response-add}
use meliproxy.Http.HeaderMap.Closed.{IsClosed, static_lookup_table-IsClosed}
use meliproxy.Http.HeaderMap.Pointers.{IsValid, changes-IsValid, insert_by_key-IsValid}
use meliproxy.Shared.{
  codes, ◌≡◌, none, refl, ◌∷◌, [], some, bytes_eq, if◌then◌else◌, ℕ, List, subst, sym,
}

abbrev host : Response
host = record { slot = 0; name = codes ":authority" }

abbrev path : Response
path = record { slot = 1; name = codes ":path" }

abbrev inline_headers : List Response
inline_headers = host ∷ path ∷ []

abbrev table : StaticLookupEntry
table = static_lookup_table inline_headers (codes "host") host

find_response-add_example : find_response (codes "te") (add (codes "t") path new_entry) ≡ (
    if bytes_eq (codes "t") (codes "te") then some path else find_response (codes "te") new_entry)
find_response-add_example = find_response-add (codes "te") (codes "t") path new_entry

found : find_response (codes "host") table ≡ some host
unfolding static_lookup_table add_all add find_response
found = refl

abbrev empty_map : HeaderMap
empty_map = record { table = table; headers = []; inline_headers = λ i. none; next_id = 0 }

empty_map-IsValid : IsValid empty_map
empty_map-IsValid = record {
  points = λ slot id e. absurd (no id e);
  apart = λ i j id e f. absurd (no id e);
  fresh = λ slot id e. absurd (no id e);
}
  where
    no : (id : ℕ) → none ≡ some id → ⊥
    no id e = cc

abbrev one_header : HeaderMap
one_header = insert_by_key (codes "host") (codes "a") empty_map

table-IsClosed : IsClosed table
table-IsClosed = static_lookup_table-IsClosed inline_headers (codes "host") host refl

one_header_table : one_header.table ≡ table
unfolding insert_by_key maybe_create_inline static_lookup_table add_all add find_response
one_header_table = refl

one_header-IsClosed : IsClosed one_header.table
one_header-IsClosed = subst IsClosed (sym one_header_table) table-IsClosed

one_header-IsValid : IsValid one_header
one_header-IsValid =
    insert_by_key-IsValid (codes "host") (codes "a") empty_map table-IsClosed empty_map-IsValid

changes-IsValid_example :
    IsValid (insert_by_key (codes "host") (codes "b") one_header)
    × IsValid (remove (codes "host") one_header)
changes-IsValid_example =
    changes-IsValid (codes "host") (codes "b") one_header one_header-IsClosed one_header-IsValid
