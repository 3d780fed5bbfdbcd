-- ===== src/Common/Base64/Groups.antt =====
-- Encoding a buffer against encoding a string.
use meliproxy.Common.Base64.{
  encode_base, encode_loop, encode, encode_slice, encode_slices, encode_buffer,
}
use meliproxy.Shared.{
  ◌++◌, take, inl, [], List, inr, ◌≤◌, ltb, ◌-◌, ◌≡◌, Bytes, min, ◌∷◌, ◌+◌, length, arith,
  Bool-cases, ℕ, refl, ◌==◌, zero, ap, sym, ◌∙◌, suc, ltb→lt, append_assoc, append-nil, ◌≢◌,
  ne_of_==_false, take_all, ==_iff,
}

-- The bytes of a buffer.
abbrev pub concat : List Bytes → Bytes
concat [] = []
concat (slice ∷ slices) = slice ++ concat slices

take_empty : (n : ℕ) → take {A = ℕ} n [] ≡ []
take_empty zero = refl
take_empty (suc n) = refl

take_nil : (n : ℕ) (ys : Bytes) → take n [] ++ ys ≡ ys
take_nil zero ys = refl
take_nil (suc n) ys = refl

-- The bytes that a slice gives before the limit.
slice-encode_loop :
    (limit j next_c : ℕ) (xs ys : Bytes)
    → (encode_slice limit j next_c xs).0
        ++ encode_loop (encode_slice limit j next_c xs).1.0 (encode_slice limit j next_c xs).1.1 ys
      ≡ encode_loop j next_c (take (limit - j) xs ++ ys)
unfolding encode_slice encode_loop
slice-encode_loop limit j next_c [] ys = ap (encode_loop j next_c) (sym (take_nil (limit - j) ys))
slice-encode_loop limit j next_c (x ∷ xs) ys = elim (Bool-cases (ltb j limit)) [
  | inl e ↦
      let next = encode_base x j next_c in
      let m : limit - j ≡ suc (limit - (j + 1)) = omega (arith, ltb→lt j limit e) in
      rw (e, m)
        (append_assoc next.0 (encode_slice limit (j + 1) next.1 xs).0 _
          ∙ ap (λ (z : Bytes). next.0 ++ z) (slice-encode_loop limit (j + 1) next.1 xs ys))
  | inr e ↦ let m : limit - j ≡ 0 = ground arith in rw (e, m) refl
]

slice-end :
    (limit j next_c : ℕ) (xs : Bytes)
    → j ≤ limit
    → (encode_slice limit j next_c xs).1.0 ≡ j + min (limit - j) (length xs)
unfolding encode_slice
slice-end limit j next_c [] h = omega arith
slice-end limit j next_c (x ∷ xs) h =
    ground (arith, slice-end limit (j + 1) (encode_base x j next_c).1 xs)

take-append_short : (n : ℕ) (xs ys : Bytes) → n ≤ length xs → take n (xs ++ ys) ≡ take n xs
take-append_short zero xs ys h = refl
take-append_short (suc n) [] ys h = absurd (omega arith)
take-append_short (suc n) (x ∷ xs) ys h = ap (◌∷◌ x) (take-append_short n xs ys (omega arith))

take-append_long :
    (n : ℕ) (xs ys : Bytes) → length xs ≤ n → take n (xs ++ ys) ≡ xs ++ take (n - length xs) ys
take-append_long n [] ys h = ap (λ (m : ℕ). take m ys) (omega arith)
take-append_long zero (x ∷ xs) ys h = absurd (omega arith)
take-append_long (suc n) (x ∷ xs) ys h =
    ap (◌∷◌ x)
      (take-append_long n xs ys (omega arith) ∙ ap (λ (m : ℕ). xs ++ take m ys) (omega arith))

slices-encode_loop :
    (limit j next_c : ℕ) (slices : List Bytes)
    → j ≤ limit
    → encode_slices limit j next_c slices ≡ encode_loop j next_c (take (limit - j) (concat slices))
unfolding encode_slices encode_loop
slices-encode_loop limit j next_c [] h = ap (encode_loop j next_c) (sym (take_empty (limit - j)))
slices-encode_loop limit j next_c (slice ∷ slices) h =
    let r = encode_slice limit j next_c slice in
    let end = slice-end limit j next_c slice h in
    elim (Bool-cases (r.1.0 == limit)) [
      | inl e ↦ rw e (
          slice-encode_loop limit j next_c slice []
          ∙ ap (encode_loop j next_c) (
              rw append-nil (
                sym (
                  take-append_short (limit - j) slice (concat slices)
                    (omega (arith, end, (==_iff r.1.0 limit).0 e))))))
      | inr e ↦ rw e (
          ap (λ (z : Bytes). r.0 ++ z) (slices-encode_loop limit r.1.0 r.1.1 slices (omega arith))
          ∙ slice-encode_loop limit j next_c slice (take (limit - r.1.0) (concat slices))
          ∙ ap (encode_loop j next_c) (rest_of r.1.0 end (ne_of_==_false r.1.0 limit e)))
    ]
  where
    rest_of :
        (k : ℕ)
        → k ≡ j + min (limit - j) (length slice)
        → k ≢ limit
        → take (limit - j) slice ++ take (limit - k) (concat slices)
          ≡ take (limit - j) (slice ++ concat slices)
    rest_of k e n =
        ap (λ (z : Bytes). z ++ take (limit - k) (concat slices))
          (take_all (limit - j) slice (omega arith))
        ∙ ap (λ (m : ℕ). slice ++ take m (concat slices)) (omega arith)
        ∙ sym (take-append_long (limit - j) slice (concat slices) (omega arith))

-- For every way a buffer is cut into slices, `encode` of its first bytes up to a length gives what
-- `encode` of a string with those bytes gives.
pub encode_buffer-encode :
    (slices : List Bytes) (limit : ℕ)
    → encode_buffer slices limit ≡ encode (take limit (concat slices))
unfolding encode_buffer encode
encode_buffer-encode slices limit =
    slices-encode_loop limit 0 0 slices (omega arith)
    ∙ ap (λ (m : ℕ). encode_loop 0 0 (take m (concat slices))) (omega arith)
