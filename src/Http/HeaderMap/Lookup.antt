-- ===== src/Http/HeaderMap/Lookup.antt =====
-- The static lookup table is a map from names.
use meliproxy.Http.HeaderMap.{
  StaticLookupEntry, Entries, node, no_entries, entry, new_entry, entry_at, set_entry, or_new, add,
  find_response, Response,
}
use meliproxy.Shared.{
  bytes_eq, [], Bytes, if◌then◌else◌, arith, ◌∷◌, ◌≡◌, ◌==◌, ℕ, some, Option, refl, none, ==_iff,
  ◌∙◌, ap, ◌&&◌, false, true, Bool,
}

entry_at-set_entry :
    (c d : ℕ) (e : StaticLookupEntry) (es : Entries)
    → entry_at c (set_entry d e es) ≡ (if d == c then some e else entry_at c es)
unfolding entry_at set_entry
entry_at-set_entry c d e no_entries = refl
entry_at-set_entry c d e (entry k f es) = ground (arith, entry_at-set_entry c d e es)

pub find_response-new_entry : (key : Bytes) → find_response key new_entry ≡ none
unfolding find_response entry_at
find_response-new_entry [] = refl
find_response-new_entry (c ∷ key) = refl

find_response-or_new :
    (key : Bytes) (o : Option StaticLookupEntry)
    → find_response key (or_new o) ≡ elim o [ none ↦ none | some e ↦ find_response key e ]
find_response-or_new key none = find_response-new_entry key
find_response-or_new key (some e) = refl

-- A name finds what was added last under it, and other names what they found before.
pub find_response-add :
    (key name : Bytes) (r : Response) (t : StaticLookupEntry)
    → find_response key (add name r t) ≡ (if bytes_eq name key then some r else find_response key t)
unfolding find_response add
find_response-add [] [] r (node old es) = refl
find_response-add [] (d ∷ name) r (node old es) = refl
find_response-add (c ∷ key) [] r (node old es) = refl
find_response-add (c ∷ key) (d ∷ name) r (node old es) =
    ap found (entry_at-set_entry c d (add name r (or_new (entry_at d es))) es)
    ∙ by_first (d == c) (λ t. (==_iff d c).0 t)
        (find_response-add key name r (or_new (entry_at d es)))
  where
    found : Option StaticLookupEntry → Option Response
    found o = elim o [ none ↦ none | some e ↦ find_response key e ]

    by_first :
        (b : Bool)
        → (b ≡ true → d ≡ c)
        → find_response key (add name r (or_new (entry_at d es)))
          ≡ (if bytes_eq name key then some r else find_response key (or_new (entry_at d es)))
        → found (if b then some (add name r (or_new (entry_at d es))) else entry_at c es)
          ≡ (if b && bytes_eq name key then some r else found (entry_at c es))
    by_first false s e = refl
    by_first true s e =
        e
        ∙ ap (λ x. if bytes_eq name key then some r else x)
            (find_response-or_new key (entry_at d es) ∙ ap (λ c. found (entry_at c es)) (s refl))
