-- ===== src/Common/StringUtil/Digits.antt =====
-- `itoa` writes the decimal digits of a number.
use native.Mathlib.Nat.{pow-suc}
use mathlib.Core.List.{reverse-cons}
use meliproxy.Common.StringUtil.{low_digits, itoa}
use meliproxy.Shared.{
  ◌-◌, ℕ, Bytes, ◌^◌, some, ◌*◌, arith, length, ◌≡◌, [], ◌∷◌, ◌++◌, length-append, ◌/◌, suc, ap,
  ◌≤◌, ◌∙◌, refl, zero, reverse, All, ◌<◌, ltb-false, ◌+◌,
}

-- The number that digits spell, behind a number that is already read.
abbrev pub decimal : ℕ → Bytes → ℕ
decimal acc [] = acc
decimal acc (c ∷ cs) = decimal (acc * 10 + (c - b'0')) cs

abbrev pub IsDigit : ℕ → Type 0
IsDigit c = (b'0' ≤ c) × (c ≤ b'9')

abbrev low_value : Bytes → ℕ
low_value [] = 0
low_value (c ∷ cs) = (c - b'0') + 10 * low_value cs

low_digits-value : (fuel i : ℕ) → i < 10 ^ suc fuel → low_value (low_digits fuel i) ≡ i
unfolding low_digits
low_digits-value zero i h = omega arith
low_digits-value (suc fuel) i h =
    ground (arith, pow-suc 10 (suc fuel), low_digits-value fuel (i / 10))

low_digits-shape :
    (fuel i : ℕ)
    → All IsDigit (low_digits fuel i)
      × (1 ≤ length (low_digits fuel i))
      × (length (low_digits fuel i) ≤ suc fuel)
unfolding low_digits
low_digits-shape zero i = ground arith
low_digits-shape (suc fuel) i = ground (arith, low_digits-shape fuel (i / 10))

decimal-append :
    (xs : Bytes) (c acc : ℕ) → decimal acc (xs ++ (c ∷ [])) ≡ decimal acc xs * 10 + (c - b'0')
decimal-append [] c acc = refl
decimal-append (x ∷ xs) c acc = decimal-append xs c (acc * 10 + (x - b'0'))

decimal-reverse : (xs : Bytes) → decimal 0 (reverse xs) ≡ low_value xs
decimal-reverse [] = refl
decimal-reverse (c ∷ cs) =
    ap (decimal 0) (reverse-cons c cs)
    ∙ decimal-append (reverse cs) c 0
    ∙ omega (arith, decimal-reverse cs)

All-reverse : (xs : Bytes) → All IsDigit xs → All IsDigit (reverse xs)
All-reverse [] h = tt
All-reverse (x ∷ xs) (h, hs) = rw (reverse-cons x xs) (All-snoc (reverse xs) (All-reverse xs hs))
  where
    All-snoc : (ys : Bytes) → All IsDigit ys → All IsDigit (ys ++ (x ∷ []))
    All-snoc [] t = (h, tt)
    All-snoc (y ∷ ys) (t, ts) = (t, All-snoc ys ts)

length-reverse : (xs : Bytes) → length (reverse xs) ≡ length xs
length-reverse [] = refl
length-reverse (x ∷ xs) =
    omega
      (arith, ap length (reverse-cons x xs), length-append (reverse xs) (x ∷ []), length-reverse xs)

pub itoa-decimal :
    (buffer_size i : ℕ)
    → 21 ≤ buffer_size
    → i < 2 ^ 64
    → (ds : Bytes) × (itoa buffer_size i ≡ some ds)
      × All IsDigit ds
      × (1 ≤ length ds)
      × (length ds ≤ 20)
      × (decimal 0 ds ≡ i)
unfolding itoa
itoa-decimal buffer_size i h k =
    let xs : Bytes = low_digits 19 i in
    let s = low_digits-shape 19 i in
    (
      reverse xs,
      rw (ltb-false buffer_size 21 h),
      All-reverse xs s.0,
      omega (arith, length-reverse xs, s.1),
      omega (arith, length-reverse xs, s.2),
      decimal-reverse xs ∙ low_digits-value 19 i (omega arith),
    )
