-- ===== src/Http/HeaderMap/Closed.antt =====
-- The static lookup table answers with names that it knows.
use meliproxy.Http.HeaderMap.{
  StaticLookupEntry, Response, new_entry, add, add_all, static_lookup_table, find_response,
}
use meliproxy.Http.HeaderMap.Lookup.{find_response-add, find_response-new_entry}
use meliproxy.Shared.{
  arith, false, some, some_inj, ◌∙◌, List, Bytes, sym, [], none, table, ◌∷◌, Bool, ap, Option, ◌≡◌,
  bytes_eq_refl, refl, if◌then◌else◌, true, bytes_eq, ◌||◌,
}

abbrev pub is_some {ℓ} : {A : Type ℓ} → Option A → Bool
is_some none = false
is_some (some a) = true

abbrev pub IsClosed : StaticLookupEntry → Type 0
IsClosed table =
    (key : Bytes) (r : Response)
    → find_response key table ≡ some r
    → is_some (find_response r.name table) ≡ true

-- A name that is found is found after an addition.
stays :
    (key name : Bytes) (r : Response) (t : StaticLookupEntry)
    → (bytes_eq name key || is_some (find_response key t)) ≡ true
    → is_some (find_response key (add name r t)) ≡ true
stays key name r t h = ap is_some (find_response-add key name r t) ∙ by_name (bytes_eq name key) h
  where
    by_name :
        (b : Bool)
        → (b || is_some (find_response key t)) ≡ true
        → is_some (if b then some r else find_response key t) ≡ true
    by_name true h = refl
    by_name false h = h

add-IsClosed :
    (name : Bytes) (r : Response) (t : StaticLookupEntry)
    → (bytes_eq name r.name || is_some (find_response r.name t)) ≡ true
    → IsClosed t
    → IsClosed (add name r t)
add-IsClosed name r t h c key s e =
    by_name (bytes_eq name key) (sym (find_response-add key name r t) ∙ e)
  where
    by_name :
        (b : Bool)
        → (if b then some r else find_response key t) ≡ some s
        → is_some (find_response s.name (add name r t)) ≡ true
    by_name true e =
        ap (λ s. is_some (find_response s.name (add name r t))) (sym (some_inj e))
        ∙ stays r.name name r t h
    by_name false e = stays s.name name r t (found (bytes_eq name s.name) (c key s e))
      where
        found :
            (b : Bool)
            → is_some (find_response s.name t) ≡ true
            → (b || is_some (find_response s.name t)) ≡ true
        found true e = refl
        found false e = e

add_all-IsClosed :
    (rs : List Response) (t : StaticLookupEntry) → IsClosed t → IsClosed (add_all rs t)
unfolding add_all
add_all-IsClosed [] t c = c
add_all-IsClosed (r ∷ rs) t c =
    add_all-IsClosed rs (add r.name r t)
      (add-IsClosed r.name r t (rw (bytes_eq_refl r.name) refl) c)

-- Whether one of the inline headers has a name.
abbrev pub names : Bytes → List Response → Bool
names name [] = false
names name (r ∷ rs) = bytes_eq r.name name || names name rs

find_response-add_all :
    (name : Bytes) (rs : List Response) (t : StaticLookupEntry)
    → (is_some (find_response name t) || names name rs) ≡ true
    → is_some (find_response name (add_all rs t)) ≡ true
unfolding add_all
find_response-add_all name [] t h = ground arith
find_response-add_all name (r ∷ rs) t h =
    find_response-add_all name rs (add r.name r t) (ground (arith, stays name r.name r t))

-- The legacy name is for one of the inline headers.
pub static_lookup_table-IsClosed :
    (inline_headers : List Response) (host_legacy : Bytes) (host : Response)
    → names host.name inline_headers ≡ true
    → IsClosed (static_lookup_table inline_headers host_legacy host)
unfolding static_lookup_table
static_lookup_table-IsClosed rs legacy host h =
    add-IsClosed legacy host (add_all rs new_entry)
      (host_found (bytes_eq legacy host.name) (
        find_response-add_all host.name rs new_entry
          (ap (λ o. is_some o || names host.name rs) (find_response-new_entry host.name) ∙ h)))
      (add_all-IsClosed rs new_entry
        (λ key r e. absurd (no r (sym (find_response-new_entry key) ∙ e))))
  where
    host_found :
        (b : Bool)
        → is_some (find_response host.name (add_all rs new_entry)) ≡ true
        → (b || is_some (find_response host.name (add_all rs new_entry))) ≡ true
    host_found true e = refl
    host_found false e = e

    no : (r : Response) → none ≡ some r → ⊥
    no r e = cc
