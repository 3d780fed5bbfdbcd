-- ===== src/Upstream/RingHash/Search.antt =====
-- The binary search in a ring against a scan from its start.
use meliproxy.Upstream.LoadBalancer.Locality.{get_elem?_lem}
use meliproxy.Upstream.RingHash.{
  RingEntry, Found, host_of, at, hash_at, search, choose_host_in, Random, random,
}
use meliproxy.Shared.{
  leb-false, none, le→leb, some, leb, refl, suc, ◌<◌, ◌≡◌, arith, ℕ, [], length, zero, ◌≤◌, List,
  Option, ◌∷◌, if◌then◌else◌, ◌&&◌, ◌||◌, ◌+◌, get_elem?, if_cases, ltb, ◌⊎◌, ◌==◌, ◌-◌, ◌/◌, false,
  ◌≢◌, inl, ltb→lt, Bool-cases, subst, ne_of_==_false, inr, true, ==_iff, ◌∙◌, ==-false, ap,
}

-- The reference: the first entry whose hash is not below `h`, and the first entry of all where there
-- is none.
abbrev pub first_from : ℕ → List RingEntry → Option RingEntry
first_from h [] = none
first_from h (e ∷ ring) = if leb h e.hash then some e else first_from h ring

abbrev pub owner : ℕ → List RingEntry → Found
owner h ring = elim (first_from h ring) [ none ↦ at ring 0 | some e ↦ host_of e ]

abbrev pub IsSorted : List RingEntry → Type 0
IsSorted ring = (i j : ℕ) → i ≤ j → j < length ring → hash_at ring i ≤ hash_at ring j

first_from-get_elem? :
    (h : ℕ) (ring : List RingEntry) (i : ℕ)
    → i < length ring
    → h ≤ hash_at ring i
    → ((j : ℕ) → j < i → hash_at ring j < h)
    → first_from h ring ≡ get_elem? ring i
first_from-get_elem? h [] i b l s = absurd (omega arith)
first_from-get_elem? h (e ∷ ring) zero b l s = rw (le→leb h e.hash l, first_from) refl
first_from-get_elem? h (e ∷ ring) (suc i) b l s =
    rw (leb-false h e.hash (s 0 (omega arith)), first_from)
      (first_from-get_elem? h ring i (omega arith) l (λ j k. s (suc j) (omega arith)))

first_from-none :
    (h : ℕ) (ring : List RingEntry)
    → ((j : ℕ) → j < length ring → hash_at ring j < h)
    → first_from h ring ≡ none
first_from-none h [] s = refl
first_from-none h (e ∷ ring) s =
    rw (leb-false h e.hash (s 0 (omega arith)), first_from)
      (first_from-none h ring (λ j k. s (suc j) (omega arith)))

-- What the bounds of the search are known to be.
record IsBracket (ring : List RingEntry) (h lowp highp : ℕ) : Type 0 where
  nonempty : lowp ≤ highp
  inside : highp ≤ length ring
  below : (j : ℕ) → j < lowp → j < length ring → hash_at ring j < h
  top : (highp ≡ length ring) ⊎ (h ≤ hash_at ring highp)

at-owner :
    (ring : List RingEntry) (h i : ℕ)
    → i < length ring
    → h ≤ hash_at ring i
    → ((j : ℕ) → j < i → hash_at ring j < h)
    → at ring i ≡ owner h ring
at-owner ring h i b l s =
    let (e, g) = get_elem?_lem ring i b in
    rw (first_from-get_elem? h ring i b l s, g, owner, at) refl

none-owner :
    (ring : List RingEntry) (h : ℕ)
    → ((j : ℕ) → j < length ring → hash_at ring j < h)
    → at ring 0 ≡ owner h ring
none-owner ring h s = rw (first_from-none h ring s, owner) refl

abbrev IsOwner : List RingEntry → ℕ → Found → Type 0
IsOwner ring h found = found ≡ owner h ring

-- What the outcome of the first test says of the entry before the middle.
hit :
    (m v h w : ℕ) → (leb h v && ltb (if m == 0 then 0 else w) h) ≡ true → (h ≤ v) × (0 < m → w < h)
hit m v h w e = ground arith

miss :
    (m v h w : ℕ)
    → (leb h v && ltb (if m == 0 then 0 else w) h) ≡ false
    → ltb v h ≡ false
    → (m ≡ 0 → h ≡ 0) × (0 < m → h ≤ w)
miss m v h w e l = ground arith

top_lem :
    (ring : List RingEntry) (h lowp highp m : ℕ)
    → IsBracket ring h lowp highp
    → m ≡ highp
    → hash_at ring m < h
    → m ≢ length ring
    → ⊥
top_lem ring h lowp highp m b e l n = elim b.top [
  | inl t ↦ n (e ∙ t)
  | inr t ↦ let l' : hash_at ring highp < h = subst (λ k. hash_at ring k < h) e l in omega arith
]

search-owner :
    (fuel : ℕ) (ring : List RingEntry) (h lowp highp : ℕ)
    → IsSorted ring
    → 0 < length ring
    → IsBracket ring h lowp highp
    → highp < fuel + lowp
    → search fuel ring h lowp highp ≡ owner h ring
unfolding search
search-owner zero ring h lowp highp sorted k b f = absurd (omega (arith, b.nonempty))
search-owner (suc fuel) ring h lowp highp sorted k b f =
    if_cases (IsOwner ring h) (midp == length ring) _ _
      (λ e. none-owner ring h (λ j l. b.below j (omega (arith, (==_iff midp (length ring)).0 e)) l))
      (λ ne.
        if_cases (IsOwner ring h) (ltb (length ring) midp) _ _
          (λ e. absurd (omega (arith, ltb→lt (length ring) midp e)))
          (λ e2.
            if_cases (IsOwner ring h) (leb h (hash_at ring midp) && ltb midval1 h) _ _
              (λ e. found e (inside ne))
              (λ e3.
                if_cases (IsOwner ring h) (ltb (hash_at ring midp) h) _ _
                  (λ e.
                    if_cases (IsOwner ring h) (ltb highp (midp + 1)) _ _
                      (λ e'. absurd (
                        top_lem ring h lowp highp midp b (omega (arith, ltb→lt highp (midp + 1) e'))
                          (ltb→lt (hash_at ring midp) h e) (ne_of_==_false midp (length ring) ne)))
                      (λ e'.
                        up e e' (inside ne)
                          (λ b' f'. search-owner fuel ring h (midp + 1) highp sorted k b' f')))
                  (λ e.
                    if_cases (IsOwner ring h) (midp == 0 || ltb (midp - 1) lowp) _ _
                      (λ e'.
                        first (miss midp (hash_at ring midp) h (hash_at ring (midp - 1)) e3 e) e'
                          (inside ne))
                      (λ e'.
                        down (miss midp (hash_at ring midp) h (hash_at ring (midp - 1)) e3 e).1 e'
                          (inside ne)
                          (λ b' f'. search-owner fuel ring h lowp (midp - 1) sorted k b' f'))))))
  where
    midp : ℕ
    midp = (lowp + highp) / 2

    midval1 : ℕ
    midval1 = if midp == 0 then 0 else hash_at ring (midp - 1)

    before : midp ≢ 0 → h ≤ hash_at ring (midp - 1) → midp - 1 < lowp → ⊥
    before n l i = omega (arith, b.below (midp - 1) i (omega (arith, b.nonempty, b.inside)))

    both : (m l : ℕ) → (m == 0 || ltb (m - 1) l) ≡ false → (0 < m) × (l ≤ m - 1)
    both m l e = ground arith

    inside : (midp == length ring) ≡ false → midp < length ring
    inside e = omega (arith, ne_of_==_false midp (length ring) e, b.nonempty, b.inside)

    found :
        (leb h (hash_at ring midp) && ltb midval1 h) ≡ true
        → midp < length ring
        → IsOwner ring h (at ring midp)
    found e i =
        let (l, w) = hit midp (hash_at ring midp) h (hash_at ring (midp - 1)) e in
        at-owner ring h midp i l
          (λ j l'. omega (arith, sorted j (midp - 1) (omega arith) (omega arith), w (omega arith)))

    up :
        ltb (hash_at ring midp) h ≡ true
        → ltb highp (midp + 1) ≡ false
        → midp < length ring
        → (IsBracket ring h (midp + 1) highp
            → highp < fuel + (midp + 1)
            → IsOwner ring h (search fuel ring h (midp + 1) highp))
        → IsOwner ring h (search fuel ring h (midp + 1) highp)
    up e e' i rec =
        rec
          (record {
            nonempty = ground arith;
            inside = b.inside;
            below = λ j l l'.
                omega (arith, sorted j midp (omega arith) i, ltb→lt (hash_at ring midp) h e);
            top = b.top;
          })
          (omega (arith, b.nonempty))

    first :
        (midp ≡ 0 → h ≡ 0) × (0 < midp → h ≤ hash_at ring (midp - 1))
        → (midp == 0 || ltb (midp - 1) lowp) ≡ true
        → midp < length ring
        → IsOwner ring h (at ring 0)
    first (z, p) e i = elim (Bool-cases (midp == 0)) [
      | inl m ↦
          at-owner ring h 0 k (omega (arith, z ((==_iff midp 0).0 m))) (λ j l. absurd (omega arith))
      | inr m ↦ absurd (
          before (ne_of_==_false midp 0 m) (p (omega (arith, ne_of_==_false midp 0 m)))
            (ground arith))
    ]

    down :
        (0 < midp → h ≤ hash_at ring (midp - 1))
        → (midp == 0 || ltb (midp - 1) lowp) ≡ false
        → midp < length ring
        → (IsBracket ring h lowp (midp - 1)
            → midp - 1 < fuel + lowp
            → IsOwner ring h (search fuel ring h lowp (midp - 1)))
        → IsOwner ring h (search fuel ring h lowp (midp - 1))
    down p e i rec =
        let (z, l) = both midp lowp e in
        rec
          (record {
            nonempty = l;
            inside = omega (arith, b.inside);
            below = b.below;
            top = inr (p (omega arith));
          })
          (omega (arith, b.nonempty))

whole : (ring : List RingEntry) (h : ℕ) → IsBracket ring h 0 (length ring)
whole ring h = record {
  nonempty = omega arith;
  inside = omega arith;
  below = λ j l. absurd (omega arith);
  top = inl refl;
}

-- The key that is looked up.
abbrev pub key : Option ℕ → Random → ℕ
key none generator = (random generator).0
key (some h) generator = h

-- For a ring in the order of its hashes that is not empty, the search ends and gives what a scan from
-- the start gives: the first entry whose hash is not below the key, and the first of all where there
-- is none. It does so for every key, whether it comes from the context or from the generator.
pub choose_host_in-owner :
    (ring : List RingEntry) (hash : Option ℕ) (generator : Random)
    → IsSorted ring
    → 0 < length ring
    → (choose_host_in ring hash generator).0 ≡ some (owner (key hash generator) ring)
unfolding choose_host_in
choose_host_in-owner ring none generator sorted k = rw (==-false (length ring) 0 (omega arith)) (
    ap some (
      search-owner (length ring + 2) ring (random generator).0 0 (length ring) sorted k
        (whole ring (random generator).0) (omega arith)))
choose_host_in-owner ring (some h) generator sorted k =
    rw (==-false (length ring) 0 (omega arith)) (
      ap some (
        search-owner (length ring + 2) ring h 0 (length ring) sorted k (whole ring h)
          (omega arith)))
