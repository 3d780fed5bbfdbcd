-- ===== src/Common/StringUtil/Split.antt =====
-- `split` against `join`, and what the pieces are.
use meliproxy.Common.StringUtil.{
  is_empty, is_prefix, find, keep, split_loop, split, join, c_str, delimited, rtrim, is_space,
}
use meliproxy.Shared.{
  ◌≡◌, ◌<◌, inr, ◌∷◌, [], List, zero, suc, arith, Bool-cases, length, drop, Option-cases, ◌++◌,
  some, Bytes, inl, true, refl, ℕ, All, false, if◌then◌else◌, ap, take-length-append, ◌-◌,
  append_assoc, ◌^◌, ◌%◌, ◌+◌, append-nil, ◌&&◌, length-append, ◌≢◌, ==-false,
}

is_prefix-drop : (xs ys : Bytes) → is_prefix xs ys ≡ true → ys ≡ xs ++ drop (length xs) ys
is_prefix-drop [] ys h = refl
is_prefix-drop (x ∷ xs) [] h = cc
is_prefix-drop (x ∷ xs) (y ∷ ys) h = ground (arith, is_prefix-drop xs ys)

-- What `find` splits at is the separator.
find-some :
    (sep source before rest : Bytes)
    → find sep source ≡ some (before, rest)
    → source ≡ before ++ (sep ++ rest)
unfolding find
find-some sep [] before rest h = cc
find-some sep (c ∷ cs) before rest h = elim (Bool-cases (is_prefix sep (c ∷ cs))) [
  | inl e ↦ ground (arith, is_prefix-drop sep (c ∷ cs) e)
  | inr e ↦ elim (Option-cases (find sep cs)) [
    | inl n ↦ ground arith
    | inr ((b, r), n) ↦ ground (arith, find-some sep cs b r n)
  ]
]

keep-true : (x : Bytes) → keep true x ≡ x ∷ []
keep-true [] = refl
keep-true (c ∷ cs) = refl

shorter :
    (source before sep rest : Bytes)
    → source ≡ before ++ (sep ++ rest)
    → 0 < length sep
    → length rest < length source
shorter source before sep rest e h =
    omega (arith, ap length e, length-append before (sep ++ rest), length-append sep rest)

delimited-split_loop :
    (fuel : ℕ) (source sep : Bytes)
    → 0 < length sep
    → length source < fuel
    → delimited (split_loop fuel source sep true) sep ≡ source ++ sep
unfolding split_loop
delimited-split_loop zero source sep k h = absurd (omega arith)
delimited-split_loop (suc fuel) source sep k h = elim (Option-cases (find sep source)) [
  | inl e ↦ rw (e, split_loop, keep-true source, append-nil)
  | inr ((before, rest), e) ↦
      let cut = find-some sep source before rest e in
      rw
        (
          e,
          split_loop,
          keep-true before,
          delimited-split_loop fuel rest sep k
              (omega (arith, shorter source before sep rest cut k)),
        )
        (simp (cut, append_assoc))
]

c_str-All : (sep : Bytes) → All (λ c. c ≢ 0) sep → c_str sep ≡ sep
c_str-All [] a = refl
c_str-All (c ∷ cs) (n, a) = rw (==-false c 0 n) (ap (◌∷◌ c) (c_str-All cs a))

-- For a separator that is not empty and has no byte 0, `join` puts together again what `split` took apart when it
-- keeps the empty strings, if the source and the separator are shorter than 2^64 together.
pub join-split :
    (source sep : Bytes)
    → 0 < length sep
    → All (λ c. c ≢ 0) sep
    → length source + length sep < 2 ^ 64
    → join (split source sep true) sep ≡ source
unfolding join split
join-split source [] k a h = absurd (omega arith)
join-split source (c ∷ cs) k a h =
    let d = delimited-split_loop (length source + 1) source (c ∷ cs) k (omega arith) in
    let n : (length (source ++ (c ∷ cs)) + 2 ^ 64 - length (c ∷ cs)) % 2 ^ 64 ≡ length source =
      omega (arith, length-append source (c ∷ cs)) in
    rw (c_str-All (c ∷ cs) a, d, n, take-length-append)

-- The strings of a list that are not empty.
abbrev pub filled : List Bytes → List Bytes
filled [] = []
filled (x ∷ xs) = if is_empty x then filled xs else x ∷ filled xs

filled-append : (xs ys : List Bytes) → filled (xs ++ ys) ≡ filled xs ++ filled ys
filled-append [] ys = refl
filled-append (x ∷ xs) ys = ground (arith, filled-append xs ys)

filled-keep : (x : Bytes) → keep false x ≡ filled (keep true x)
filled-keep [] = refl
filled-keep (c ∷ cs) = refl

split_loop-filled :
    (fuel : ℕ) (source sep : Bytes)
    → split_loop fuel source sep false ≡ filled (split_loop fuel source sep true)
unfolding split_loop
split_loop-filled zero source sep = refl
split_loop-filled (suc fuel) source sep = elim (Option-cases (find sep source)) [
  | inl e ↦ rw (e, split_loop) (filled-keep source)
  | inr ((before, rest), e) ↦
      rw (e, split_loop, filled-append, ← filled-keep before, ← split_loop-filled fuel rest sep)
]

-- For a separator that is not empty, `split` without the empty strings gives those strings that are
-- not empty of what it gives with them.
pub split-filled :
    (source sep : Bytes) → 0 < length sep → split source sep false ≡ filled (split source sep true)
unfolding split
split-filled source [] h = absurd (omega arith)
split-filled source (c ∷ cs) h = split_loop-filled (length source + 1) source (c ∷ cs)

-- The last byte is white space.
abbrev EndsInSpace : Bytes → Type 0
EndsInSpace [] = ⊥
EndsInSpace (c ∷ []) = is_space c ≡ true
EndsInSpace (c ∷ d ∷ cs) = EndsInSpace (d ∷ cs)

-- The result of `rtrim` is the source without a tail of white space, and does not end in white space.
rtrim_lem :
    (source : Bytes)
    → (tail : Bytes) × (source ≡ rtrim source ++ tail)
      × All (λ c. is_space c ≡ true) tail
      × (¬ EndsInSpace (rtrim source))
unfolding rtrim
rtrim_lem [] = ([], refl, tt, λ h. h)
rtrim_lem (c ∷ cs) = go (rtrim cs) (rtrim_lem cs)
  where
    go :
        (r : Bytes)
        → (tail : Bytes) × (cs ≡ r ++ tail) × All (λ c. is_space c ≡ true) tail × (¬ EndsInSpace r)
        → (tail : Bytes) × (c ∷ cs ≡ (if is_empty r && is_space c then [] else c ∷ r) ++ tail)
          × All (λ c. is_space c ≡ true) tail
          × (¬ EndsInSpace (if is_empty r && is_space c then [] else c ∷ r))
    go [] (tail, e, a, n) = elim (Bool-cases (is_space c)) [
      | inl s ↦ rw s (c ∷ cs, refl, (s, rw e a), λ h. h)
      | inr s ↦ rw s (tail, ap (◌∷◌ c) e, a, λ h. cc)
    ]
    go (d ∷ r) (tail, e, a, n) = (tail, ap (◌∷◌ c) e, a, n)
