-- ===== src/Http/HeaderMap/Pointers.antt =====
-- The pointers to the inline headers.
use meliproxy.Http.HeaderMap.Closed.{IsClosed, is_some}
use meliproxy.Http.HeaderMap.{
  StaticLookupEntry, Response, find_response, HeaderEntry, HeaderMap, point, emplace,
  maybe_create_inline, insert_by_key, erase_id, remove_inline, remove_key, remove,
}
use meliproxy.Shared.{
  table, true, ◌==◌, some, Option, ◌++◌, List, Bool, ℕ, ◌&&◌, none, refl, Bytes, ◌∙◌, [], ◌<◌,
  arith, ◌≡◌, ◌∷◌, false, ◌||◌, inl, ap, bytes_eq, Bool-cases, inr, ◌⊎◌, some_inj, sym,
  bytes_eq_sound, ==_iff, ==-true, ne_of_==_false, ◌+◌,
}

-- The list has an entry of this number, whose key is the name of an inline header.
abbrev pub holds : StaticLookupEntry → ℕ → List HeaderEntry → Bool
holds table id [] = false
holds table id (h ∷ hs) = (h.id == id && is_some (find_response h.key table)) || holds table id hs

-- No pointer dangles, and no two point to the same entry.
pub record IsValid (m : HeaderMap) : Type 0 where
  pub points : (slot id : ℕ) → m.inline_headers slot ≡ some id → holds m.table id m.headers ≡ true
  pub apart : (i j id : ℕ) → m.inline_headers i ≡ some id → m.inline_headers j ≡ some id → i ≡ j
  pub fresh : (slot id : ℕ) → m.inline_headers slot ≡ some id → id < m.next_id

holds-append :
    (table : StaticLookupEntry) (id : ℕ) (hs js : List HeaderEntry)
    → holds table id (hs ++ js) ≡ (holds table id hs || holds table id js)
holds-append table id [] js = refl
holds-append table id (h ∷ hs) js = ground (arith, holds-append table id hs js)

holds-erase_id :
    (table : StaticLookupEntry) (id k : ℕ) (hs : List HeaderEntry)
    → (k == id) ≡ false
    → holds table k (erase_id id hs) ≡ holds table k hs
unfolding erase_id
holds-erase_id table id k [] n = refl
holds-erase_id table id k (h ∷ hs) n = ground (arith, holds-erase_id table id k hs n)

absent : (a s b : Bool) → s ≡ false → b ≡ ((a && s) || b)
absent a s b e = ground arith

holds-remove_key :
    (table : StaticLookupEntry) (id : ℕ) (key : Bytes) (hs : List HeaderEntry)
    → is_some (find_response key table) ≡ false
    → holds table id (remove_key key hs) ≡ holds table id hs
unfolding remove_key
holds-remove_key table id key [] n = refl
holds-remove_key table id key (h ∷ hs) n = elim (Bool-cases (bytes_eq h.key key)) [
  | inl t ↦ rw t (
      holds-remove_key table id key hs n
      ∙ absent (h.id == id) (is_some (find_response h.key table)) (holds table id hs)
          (ap (λ k. is_some (find_response k table)) (bytes_eq_sound h.key key t) ∙ n))
  | inr t ↦ rw t (
      ap (λ b. (h.id == id && is_some (find_response h.key table)) || b)
        (holds-remove_key table id key hs n))
]

emplace-IsValid : (key value : Bytes) (m : HeaderMap) → IsValid m → IsValid (emplace key value m)
emplace-IsValid key value m v = record {
  points = λ slot id e. holds-append m.table id m.headers _ ∙ rw (v.points slot id e) refl;
  apart = v.apart;
  fresh = λ slot id e. omega (arith, v.fresh slot id e);
}

point-new :
    (slot i id n : ℕ) (inline_headers : ℕ → Option ℕ)
    → point slot (some n) inline_headers i ≡ some id
    → ((i ≡ slot) × (id ≡ n)) ⊎ (inline_headers i ≡ some id)
point-new slot i id n f e = elim (Bool-cases (i == slot)) [
  | inl t ↦ inl ((==_iff i slot).0 t, sym (some_inj (rw (t, point) at e)))
  | inr t ↦ inr (rw (t, point) at e)
]

point-none :
    (slot i id : ℕ) (inline_headers : ℕ → Option ℕ)
    → point slot none inline_headers i ≡ some id
    → ((i == slot) ≡ false) × (inline_headers i ≡ some id)
point-none slot i id f e = elim (Bool-cases (i == slot)) [
  | inl t ↦ absurd (no (rw (t, point) at e))
  | inr t ↦ (t, rw (t, point) at e)
]
  where
    no : none ≡ some id → ⊥
    no e = cc

maybe_create_inline-IsValid :
    (slot : ℕ) (key value : Bytes) (m : HeaderMap)
    → is_some (find_response key m.table) ≡ true
    → IsValid m
    → IsValid (maybe_create_inline slot key value m)
unfolding maybe_create_inline
maybe_create_inline-IsValid slot key value m k v = by_pointer (m.inline_headers slot)
  where
    w : IsValid (emplace key value m)
    w = emplace-IsValid key value m v

    created :
        (i id : ℕ)
        → ((i ≡ slot) × (id ≡ m.next_id)) ⊎ (m.inline_headers i ≡ some id)
        → holds m.table id (emplace key value m).headers ≡ true
    created i id (inl (a, b)) =
        holds-append m.table id m.headers _
        ∙ last (holds m.table id m.headers) (m.next_id == id) (is_some (find_response key m.table))
            (==-true m.next_id id (sym b)) k
      where
        last : (a b c : Bool) → b ≡ true → c ≡ true → (a || ((b && c) || false)) ≡ true
        last a b c e f = ground arith
    created i id (inr e) = w.points i id e

    below :
        (i id : ℕ)
        → ((i ≡ slot) × (id ≡ m.next_id)) ⊎ (m.inline_headers i ≡ some id)
        → id < m.next_id + 1
    below i id (inl (a, b)) = omega (arith, b)
    below i id (inr e) = omega (arith, v.fresh i id e)

    meets :
        (i j id : ℕ)
        → ((i ≡ slot) × (id ≡ m.next_id)) ⊎ (m.inline_headers i ≡ some id)
        → ((j ≡ slot) × (id ≡ m.next_id)) ⊎ (m.inline_headers j ≡ some id)
        → i ≡ j
    meets i j id (inl (a, b)) (inl (c, d)) = a ∙ sym c
    meets i j id (inl (a, b)) (inr f) = omega (arith, b, v.fresh j id f)
    meets i j id (inr e) (inl (c, d)) = omega (arith, d, v.fresh i id e)
    meets i j id (inr e) (inr f) = v.apart i j id e f

    by_pointer :
        (p : Option ℕ)
        → IsValid (elim p [
          | some id ↦ m
          | none ↦ record (emplace key value m) {
            inline_headers = point slot (some m.next_id) m.inline_headers;
          }
        ])
    by_pointer (some id) = v
    by_pointer none = record {
      points = λ i id e. created i id (point-new slot i id m.next_id m.inline_headers e);
      apart = λ i j id e f.
          meets i j id (point-new slot i id m.next_id m.inline_headers e)
            (point-new slot j id m.next_id m.inline_headers f);
      fresh = λ i id e. below i id (point-new slot i id m.next_id m.inline_headers e);
    }

pub insert_by_key-IsValid :
    (key value : Bytes) (m : HeaderMap)
    → IsClosed m.table
    → IsValid m
    → IsValid (insert_by_key key value m)
unfolding insert_by_key
insert_by_key-IsValid key value m c v = by_response (find_response key m.table) refl
  where
    by_response :
        (r : Option Response)
        → find_response key m.table ≡ r
        → IsValid (elim r [
          | some r ↦ maybe_create_inline r.slot r.name value m
          | none ↦ emplace key value m
        ])
    by_response none e = emplace-IsValid key value m v
    by_response (some r) e = maybe_create_inline-IsValid r.slot r.name value m (c key r e) v

remove_inline-IsValid : (slot : ℕ) (m : HeaderMap) → IsValid m → IsValid (remove_inline slot m)
unfolding remove_inline
remove_inline-IsValid slot m v = by_pointer (m.inline_headers slot) refl
  where
    erased :
        (gone i id : ℕ)
        → m.inline_headers slot ≡ some gone
        → ((i == slot) ≡ false) × (m.inline_headers i ≡ some id)
        → holds m.table id (erase_id gone m.headers) ≡ true
    erased gone i id g (n, e) = elim (Bool-cases (id == gone)) [
      | inl t ↦
          absurd
            (ne_of_==_false i slot n (v.apart i slot gone (e ∙ ap some ((==_iff id gone).0 t)) g))
      | inr t ↦ holds-erase_id m.table gone id m.headers t ∙ v.points i id e
    ]

    by_pointer :
        (p : Option ℕ)
        → m.inline_headers slot ≡ p
        → IsValid (elim p [
          | none ↦ m
          | some id ↦ record m {
            inline_headers = point slot none m.inline_headers;
            headers = erase_id id m.headers;
          }
        ])
    by_pointer none g = v
    by_pointer (some gone) g = record {
      points = λ i id e. erased gone i id g (point-none slot i id m.inline_headers e);
      apart = λ i j id e f.
          v.apart i j id (point-none slot i id m.inline_headers e).1
            (point-none slot j id m.inline_headers f).1;
      fresh = λ i id e. v.fresh i id (point-none slot i id m.inline_headers e).1;
    }

-- Insertions into a valid map and removals from it leave no pointer to an inline header dangling, and no
-- two pointers to the same entry. The static table answers only with names that it knows.
pub changes-IsValid :
    (key value : Bytes) (m : HeaderMap)
    → IsClosed m.table
    → IsValid m
    → IsValid (insert_by_key key value m) × IsValid (remove key m)
unfolding remove
changes-IsValid key value m c v =
    (insert_by_key-IsValid key value m c v, by_response (find_response key m.table) refl)
  where
    by_response :
        (r : Option Response)
        → find_response key m.table ≡ r
        → IsValid (elim r [
          | some r ↦ remove_inline r.slot m
          | none ↦ record m { headers = remove_key key m.headers }
        ])
    by_response (some r) e = remove_inline-IsValid r.slot m v
    by_response none e = record {
      points = λ slot id p.
          holds-remove_key m.table id key m.headers (ap is_some e) ∙ v.points slot id p;
      apart = v.apart;
      fresh = v.fresh;
    }
