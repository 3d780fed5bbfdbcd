-- ===== src/Common/Base64/RoundTrip.antt =====
-- Decoding what was encoded.
use meliproxy.Common.Base64.{
  first_padding_index, encode, decode, string, Decoded, encode_base, encode_last, encode_loop,
  encode, decode, decode_groups, first_padding_index, char_of, reverse_of, Decoded, string, byte_1,
  byte_2, byte_3,
}
use meliproxy.Common.Base64.Chars.{
  char_of-padding, byte_1-last, byte_2-last, no_bits_of_two, no_bits_of_three, padding_lem,
  reverse_of-char_of, char_of-padding, second, third, second_sum, third_sum, byte_1_lem, byte_2_lem,
  byte_3_lem,
}
use meliproxy.Shared.{
  ◌/◌, ◌==◌, and_0x3f, ◌*◌, ==-true, Bytes, true, false, ◌≡◌, ◌+◌, ℕ, ◌%◌, [], ◌<◌, bit_and, IsByte,
  ==-false, suc, ◌∷◌, refl, ◌++◌, ◌^◌, arith, append-nil, ◌∙◌, ap, All, append_assoc, some, and_0xf,
  and_0x3, get_or, length, if_cases, ◌-◌, not, ◌||◌, length-append, if◌then◌else◌, subst, sym,
}

-- A group of four chars.
abbrev group : ℕ → ℕ → ℕ → Bytes → Bytes
group x y z rest =
    char_of (x / 2 ^ 2) ∷ char_of (second x y) ∷ char_of (third y z) ∷ char_of (bit_and z 63) ∷ rest

encode_loop-group :
    (k x y z n : ℕ) (rest : Bytes)
    → encode_loop (3 * k) n (x ∷ y ∷ z ∷ rest) ≡ group x y z (encode_loop (3 * suc k) 0 rest)
unfolding encode_loop encode_base
encode_loop-group k x y z n rest =
    let a : (3 * k % 3 == 0) ≡ true = ==-true (3 * k % 3) 0 (omega arith) in
    let b : ((3 * k + 1) % 3 == 0) ≡ false = ==-false ((3 * k + 1) % 3) 0 (omega arith) in
    let b' : ((3 * k + 1) % 3 == 1) ≡ true = ==-true ((3 * k + 1) % 3) 1 (omega arith) in
    let c : ((3 * k + 1 + 1) % 3 == 0) ≡ false = ==-false ((3 * k + 1 + 1) % 3) 0 (omega arith) in
    let c' : ((3 * k + 1 + 1) % 3 == 1) ≡ false = ==-false ((3 * k + 1 + 1) % 3) 1 (omega arith) in
    let m : 3 * k + 1 + 1 + 1 ≡ 3 * suc k = omega arith in rw (a, b, b', c, c', m) refl

encode_loop-one :
    (k x n : ℕ)
    → encode_loop (3 * k) n (x ∷ [])
      ≡ char_of (x / 2 ^ 2) ∷ char_of (bit_and x 3 * 2 ^ 4) ∷ b'=' ∷ b'=' ∷ []
unfolding encode_loop encode_base encode_last
encode_loop-one k x n =
    let a : (3 * k % 3 == 0) ≡ true = ==-true (3 * k % 3) 0 (omega arith) in
    let b' : ((3 * k + 1) % 3 == 1) ≡ true = ==-true ((3 * k + 1) % 3) 1 (omega arith) in
    rw (a, b') refl

encode_loop-two :
    (k x y n : ℕ)
    → encode_loop (3 * k) n (x ∷ y ∷ [])
      ≡ char_of (x / 2 ^ 2) ∷ char_of (second x y) ∷ char_of (bit_and y 15 * 2 ^ 2) ∷ b'=' ∷ []
unfolding encode_loop encode_base encode_last
encode_loop-two k x y n =
    let a : (3 * k % 3 == 0) ≡ true = ==-true (3 * k % 3) 0 (omega arith) in
    let b : ((3 * k + 1) % 3 == 0) ≡ false = ==-false ((3 * k + 1) % 3) 0 (omega arith) in
    let b' : ((3 * k + 1) % 3 == 1) ≡ true = ==-true ((3 * k + 1) % 3) 1 (omega arith) in
    let c' : ((3 * k + 1 + 1) % 3 == 1) ≡ false = ==-false ((3 * k + 1 + 1) % 3) 1 (omega arith) in
    let c : ((3 * k + 1 + 1) % 3 == 2) ≡ true = ==-true ((3 * k + 1 + 1) % 3) 2 (omega arith) in
    rw (a, b, b', c', c) refl

encode_loop-none : (k n : ℕ) → encode_loop (3 * k) n [] ≡ []
unfolding encode_loop encode_last
encode_loop-none k n =
    let a : (3 * k % 3 == 1) ≡ false = ==-false (3 * k % 3) 1 (omega arith) in
    let b : (3 * k % 3 == 2) ≡ false = ==-false (3 * k % 3) 2 (omega arith) in rw (a, b) refl

-- The three ways a round of `decode` goes for chars of the alphabet.
round_of_four :
    (f r p q s t a b c d : ℕ) (result rest : Bytes)
    → reverse_of p ≡ some a
    → reverse_of q ≡ some b
    → reverse_of s ≡ some c
    → reverse_of t ≡ some d
    → a < 64
    → b < 64
    → c < 64
    → d < 64
    → decode_groups f r result (p ∷ q ∷ s ∷ t ∷ rest)
      ≡ decode_groups f
          (r + 4)
          (((result ++ (byte_1 a b ∷ [])) ++ (byte_2 b c ∷ [])) ++ (byte_3 c d ∷ []))
          rest
unfolding decode_groups
round_of_four f r p q s t a b c d result rest ep eq es et ha hb hc hd =
    rw (ep, decode_groups)
      (rw (eq, decode_groups)
        (rw (es, ==-false a 64 (omega arith), ==-false b 64 (omega arith), decode_groups)
          (rw (et, ==-false c 64 (omega arith), decode_groups)
            (rw (==-false d 64 (omega arith)) refl))))

round_of_two :
    (r p q a b : ℕ) (result : Bytes)
    → reverse_of p ≡ some a
    → reverse_of q ≡ some b
    → a < 64
    → b < 64
    → bit_and b 15 ≡ 0
    → decode_groups (r + 2) r result (p ∷ q ∷ b'=' ∷ b'=' ∷ [])
      ≡ string (result ++ (byte_1 a b ∷ []))
unfolding decode_groups
round_of_two r p q a b result ep eq ha hb z =
    rw (ep, decode_groups)
      (rw (eq, decode_groups)
        (rw (padding_lem, ==-false a 64 (omega arith), ==-false b 64 (omega arith), decode_groups)
          (rw (==-true (r + 2) (r + 2) refl, z) refl)))

round_of_three :
    (r p q s a b c : ℕ) (result : Bytes)
    → reverse_of p ≡ some a
    → reverse_of q ≡ some b
    → reverse_of s ≡ some c
    → a < 64
    → b < 64
    → c < 64
    → bit_and c 3 ≡ 0
    → decode_groups (r + 3) r result (p ∷ q ∷ s ∷ b'=' ∷ [])
      ≡ string ((result ++ (byte_1 a b ∷ [])) ++ (byte_2 b c ∷ []))
unfolding decode_groups
round_of_three r p q s a b c result ep eq es ha hb hc z =
    rw (ep, decode_groups)
      (rw (eq, decode_groups)
        (rw (es, ==-false a 64 (omega arith), ==-false b 64 (omega arith), decode_groups)
          (rw (padding_lem, ==-false c 64 (omega arith), decode_groups)
            (rw (==-true (r + 3) (r + 3) refl, z) refl))))

-- Where the padding of an encoding starts, for the bytes that are still to be decoded.
abbrev PadsAt : ℕ → ℕ → Bytes → Type 0
PadsAt f r [] = Unit
PadsAt f r (x ∷ []) = f ≡ r + 2
PadsAt f r (x ∷ y ∷ []) = f ≡ r + 3
PadsAt f r (x ∷ y ∷ z ∷ rest) = PadsAt f (r + 4) rest

append_three :
    (result : Bytes) (x y z : ℕ) (rest : Bytes)
    → (((result ++ (x ∷ [])) ++ (y ∷ [])) ++ (z ∷ [])) ++ rest ≡ result ++ (x ∷ y ∷ z ∷ rest)
append_three [] x y z rest = refl
append_three (u ∷ result) x y z rest = ap (◌∷◌ u) (append_three result x y z rest)

groups_lem :
    (f r k n : ℕ) (result xs : Bytes)
    → All IsByte xs
    → PadsAt f r xs
    → decode_groups f r result (encode_loop (3 * k) n xs) ≡ string (result ++ xs)
unfolding decode_groups
groups_lem f r k n result [] h p = rw (encode_loop-none k n, append-nil) refl
groups_lem f r k n result (x ∷ []) (hx, h) p =
    let a : x / 2 ^ 2 < 64 = omega (arith, hx) in
    let b : bit_and x 3 * 2 ^ 4 < 64 = omega (arith, and_0x3 x) in
    rw (encode_loop-one k x n, p)
      (round_of_two r (char_of (x / 2 ^ 2)) (char_of (bit_and x 3 * 2 ^ 4)) (x / 2 ^ 2)
          (bit_and x 3 * 2 ^ 4) result (reverse_of-char_of (x / 2 ^ 2) a)
          (reverse_of-char_of (bit_and x 3 * 2 ^ 4) b) a b (no_bits_of_two x)
        ∙ ap (λ (y : ℕ). string (result ++ (y ∷ []))) (byte_1-last x hx))
groups_lem f r k n result (x ∷ y ∷ []) (hx, (hy, h)) p =
    let a : x / 2 ^ 2 < 64 = omega (arith, hx) in
    let b : second x y < 64 = omega (arith, second_sum x y hy, hy) in
    let c : bit_and y 15 * 2 ^ 2 < 64 = omega (arith, and_0xf y) in
    rw (encode_loop-two k x y n, p)
      (round_of_three r (char_of (x / 2 ^ 2)) (char_of (second x y))
          (char_of (bit_and y 15 * 2 ^ 2)) (x / 2 ^ 2) (second x y) (bit_and y 15 * 2 ^ 2) result
          (reverse_of-char_of (x / 2 ^ 2) a) (reverse_of-char_of (second x y) b)
          (reverse_of-char_of (bit_and y 15 * 2 ^ 2) c) a b c (no_bits_of_three y)
        ∙ ap
            (λ (z : ℕ).
              string ((result ++ (z ∷ [])) ++ (byte_2 (second x y) (bit_and y 15 * 2 ^ 2) ∷ [])))
            (byte_1_lem x y hx hy)
        ∙ ap (λ (z : ℕ). string ((result ++ (x ∷ [])) ++ (z ∷ []))) (byte_2-last x y hx hy)
        ∙ ap string (append_assoc result (x ∷ []) (y ∷ [])))
groups_lem f r k n result (x ∷ y ∷ z ∷ rest) (hx, (hy, (hz, h))) p =
    let a : x / 2 ^ 2 < 64 = omega (arith, hx) in
    let b : second x y < 64 = omega (arith, second_sum x y hy, hy) in
    let c : third y z < 64 = omega (arith, third_sum y z hz, hz) in
    let d : bit_and z 63 < 64 = omega (arith, and_0x3f z) in
    let more = encode_loop (3 * suc k) 0 rest in
    rw (encode_loop-group k x y z n rest) (
      round_of_four f r (char_of (x / 2 ^ 2)) (char_of (second x y)) (char_of (third y z))
        (char_of (bit_and z 63)) (x / 2 ^ 2) (second x y) (third y z) (bit_and z 63) result more
        (reverse_of-char_of (x / 2 ^ 2) a) (reverse_of-char_of (second x y) b)
        (reverse_of-char_of (third y z) c) (reverse_of-char_of (bit_and z 63) d) a b c d
      ∙ ap
          (λ (u : ℕ).
            decode_groups f (r + 4)
              (((result ++ (u ∷ [])) ++ (byte_2 (second x y) (third y z) ∷ []))
                ++ (byte_3 (third y z) (bit_and z 63) ∷ []))
              more)
          (byte_1_lem x y hx hy)
      ∙ ap
          (λ (u : ℕ).
            decode_groups f (r + 4)
              (((result ++ (x ∷ [])) ++ (u ∷ [])) ++ (byte_3 (third y z) (bit_and z 63) ∷ [])) more)
          (byte_2_lem x y z hx hy hz)
      ∙ ap
          (λ (u : ℕ). decode_groups f (r + 4) (((result ++ (x ∷ [])) ++ (y ∷ [])) ++ (u ∷ [])) more)
          (byte_3_lem y z hy hz)
      ∙ groups_lem f (r + 4) (suc k) 0 (((result ++ (x ∷ [])) ++ (y ∷ [])) ++ (z ∷ [])) rest h p
      ∙ ap string (append_three result x y z rest))

get_or-append : (pre ys : Bytes) (i d : ℕ) → get_or (pre ++ ys) (length pre + i) d ≡ get_or ys i d
get_or-append [] ys i d = let m : 0 + i ≡ i = omega arith in ap (λ (j : ℕ). get_or ys j d) m
get_or-append (u ∷ pre) ys i d =
    let m : suc (length pre) + i ≡ suc (length pre + i) = omega arith in
    ap (λ (j : ℕ). get_or (u ∷ (pre ++ ys)) j d) m ∙ get_or-append pre ys i d

-- Where `decode` finds the padding to start, by the last two of the chars.
pad_at :
    (pre : Bytes) (p q s t : ℕ)
    → first_padding_index (pre ++ (p ∷ q ∷ s ∷ t ∷ [])) ≡ (
        if t == b'='
        then (if s == b'=' then length pre + 2 else length pre + 3)
        else length pre + 4)
unfolding first_padding_index
pad_at pre p q s t =
    let n : length (pre ++ (p ∷ q ∷ s ∷ t ∷ [])) ≡ length pre + 4 =
      omega (arith, length-append pre (p ∷ q ∷ s ∷ t ∷ [])) in
    let m₁ : length pre + 4 - 1 ≡ length pre + 3 = omega arith in
    let m₂ : length pre + 4 - 2 ≡ length pre + 2 = omega arith in
    rw (n, m₁, m₂)
      (rw (get_or-append pre (p ∷ q ∷ s ∷ t ∷ []) 3 0, get_or-append pre (p ∷ q ∷ s ∷ t ∷ []) 2 0)
        refl)

-- The padding that `decode` finds at the end of the input is where the encoding has put it.
first_padding_lem :
    (k n : ℕ) (pre xs : Bytes)
    → All IsByte xs
    → PadsAt (first_padding_index (pre ++ encode_loop (3 * k) n xs)) (length pre) xs
first_padding_lem k n pre [] h = tt
first_padding_lem k n pre (x ∷ []) (hx, h) =
    rw (encode_loop-one k x n)
      (pad_at pre (char_of (x / 2 ^ 2)) (char_of (bit_and x 3 * 2 ^ 4)) b'=' b'=')
first_padding_lem k n pre (x ∷ y ∷ []) (hx, (hy, h)) =
    let c : bit_and y 15 * 2 ^ 2 < 64 = omega (arith, and_0xf y) in
    let e = char_of-padding (bit_and y 15 * 2 ^ 2) c in
    rw (encode_loop-two k x y n) (
      pad_at pre (char_of (x / 2 ^ 2)) (char_of (second x y)) (char_of (bit_and y 15 * 2 ^ 2)) b'='
      ∙ rw e refl)
first_padding_lem k n pre (x ∷ y ∷ z ∷ rest) (hx, (hy, (hz, h))) =
    let more = encode_loop (3 * suc k) 0 rest in
    let four = group x y z [] in
    let m : length (pre ++ four) ≡ length pre + 4 = omega (arith, length-append pre four) in
    let e : (pre ++ four) ++ more ≡ pre ++ group x y z more = append_assoc pre four more in
    subst (λ (j : Bytes). PadsAt (first_padding_index (pre ++ j)) (length pre + 4) rest)
      (sym (encode_loop-group k x y z n rest))
      (subst (λ (j : ℕ). PadsAt (first_padding_index (pre ++ group x y z more)) j rest) m
        (subst (λ (j : Bytes). PadsAt (first_padding_index j) (length (pre ++ four)) rest) e
          (first_padding_lem (suc k) 0 (pre ++ four) rest h)))

length-encode_loop : (k n : ℕ) (xs : Bytes) → length (encode_loop (3 * k) n xs) % 4 ≡ 0
length-encode_loop k n [] = rw (encode_loop-none k n) (omega arith)
length-encode_loop k n (x ∷ []) = rw (encode_loop-one k x n) (omega arith)
length-encode_loop k n (x ∷ y ∷ []) = rw (encode_loop-two k x y n) (omega arith)
length-encode_loop k n (x ∷ y ∷ z ∷ rest) =
    rw (encode_loop-group k x y z n rest) (omega (arith, length-encode_loop (suc k) 0 rest))

encode_loop-filled : (k n x : ℕ) (xs : Bytes) → 0 < length (encode_loop (3 * k) n (x ∷ xs))
encode_loop-filled k n x [] = rw (encode_loop-one k x n) (omega arith)
encode_loop-filled k n x (y ∷ []) = rw (encode_loop-two k x y n) (omega arith)
encode_loop-filled k n x (y ∷ z ∷ rest) = rw (encode_loop-group k x y z n rest) (omega arith)

-- Decoding gives back every list of bytes that was encoded: with its padding, and without a read past
-- the end of the table.
pub decode-encode : (xs : Bytes) → All IsByte xs → decode (encode xs) ≡ string xs
unfolding decode encode
decode-encode [] h = rw (encode_loop-none 0 0) refl
decode-encode (x ∷ xs) h =
    if_cases (λ (d : Decoded). d ≡ string (x ∷ xs))
      (not (length (encode_loop 0 0 (x ∷ xs)) % 4 == 0) || length (encode_loop 0 0 (x ∷ xs)) == 0) _
      _
      (λ e. absurd (
        short (length (encode_loop 0 0 (x ∷ xs))) e (length-encode_loop 0 0 (x ∷ xs))
          (encode_loop-filled 0 0 x xs)))
      (λ e.
        groups_lem (first_padding_index (encode_loop 0 0 (x ∷ xs))) 0 0 0 [] (x ∷ xs) h
          (first_padding_lem 0 0 [] (x ∷ xs) h))
  where
    short : (l : ℕ) → (not (l % 4 == 0) || l == 0) ≡ true → l % 4 ≡ 0 → 0 < l → ⊥
    short l e m p = ground arith
