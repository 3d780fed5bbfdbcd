-- ===== src/Common/Base64/Chars.antt =====
-- The chars of the alphabet, and the bytes that four values make.
use meliproxy.Common.Base64.{char_of, reverse_of, byte_1, byte_2, byte_3}
use meliproxy.Shared.{
  bit_and, and_0xf, table, ◌%◌, ◌==◌, table_lem, true, bit_or, ◌+◌, and_0x3f, ℕ, ◌≡◌, ◌*◌, some,
  none, ◌^◌, ap, and_0x3, arith, ◌/◌, IsByte, Option, false, ◌<◌, refl, or_join, all_below, Bool,
  if◌then◌else◌,
}

abbrev looked_up : Option ℕ → ℕ
looked_up none = 64
looked_up (some v) = v

some_of : (o : Option ℕ) (i : ℕ) → i < 64 → looked_up o ≡ i → o ≡ some i
some_of none i h e = absurd (omega arith)
some_of (some v) i h e = ap some e

-- Each of the 64 chars is looked up as its place in the alphabet.
pub reverse_of-char_of : (i : ℕ) → i < 64 → reverse_of (char_of i) ≡ some i
unfolding reverse_of char_of table all_below
reverse_of-char_of i h =
    some_of (reverse_of (char_of i)) i h
      (table_lem 64 (λ j. looked_up (reverse_of (char_of j))) (λ j. j) refl i h)

-- The padding is not a char of the alphabet.
pub char_of-padding : (i : ℕ) → i < 64 → (char_of i == b'=') ≡ false
unfolding char_of table all_below
char_of-padding i h =
    let e = table_lem 64 (λ j. if char_of j == b'=' then 1 else 0) (λ j. 0) refl i h in
    clear (char_of i == b'=') e
  where
    clear : (b : Bool) → ◌≡◌ {A = ℕ} (if b then 1 else 0) 0 → b ≡ false
    clear true e = absurd (omega arith)
    clear false e = refl

-- The values of six bits that three bytes make.
abbrev pub second : ℕ → ℕ → ℕ
second x y = bit_or (bit_and x 3 * 2 ^ 4) (y / 2 ^ 4)

abbrev pub third : ℕ → ℕ → ℕ
third y z = bit_or (bit_and y 15 * 2 ^ 2) (z / 2 ^ 6)

pub second_sum : (x y : ℕ) → IsByte y → second x y ≡ x % 4 * 16 + y / 16
second_sum x y h = rw (and_0x3 x) (or_join 4 (x % 4) (y / 2 ^ 4) (omega arith))

pub third_sum : (y z : ℕ) → IsByte z → third y z ≡ y % 16 * 4 + z / 64
third_sum y z h = rw (and_0xf y) (or_join 2 (y % 16) (z / 2 ^ 6) (omega arith))

pub byte_1_lem : (x y : ℕ) → IsByte x → IsByte y → byte_1 (x / 2 ^ 2) (second x y) ≡ x
byte_1_lem x y hx hy =
    rw (second_sum x y hy)
      (omega (arith, or_join 2 (x / 4) ((x % 4 * 16 + y / 16) / 16) (omega arith)))

pub byte_2_lem : (x y z : ℕ) → IsByte x → IsByte y → IsByte z → byte_2 (second x y) (third y z) ≡ y
byte_2_lem x y z hx hy hz =
    rw (second_sum x y hy, third_sum y z hz)
      (omega (arith, or_join 4 (x % 4 * 16 + y / 16) ((y % 16 * 4 + z / 64) / 4) (omega arith)))

pub byte_3_lem : (y z : ℕ) → IsByte y → IsByte z → byte_3 (third y z) (bit_and z 63) ≡ z
byte_3_lem y z hy hz =
    rw (third_sum y z hz, and_0x3f z)
      (omega (arith, or_join 6 (y % 16 * 4 + z / 64) (z % 64) (omega arith)))

pub padding_lem : reverse_of b'=' ≡ some 64
unfolding reverse_of
padding_lem = refl

-- The last char before the padding.
pub byte_1-last : (x : ℕ) → IsByte x → byte_1 (x / 2 ^ 2) (bit_and x 3 * 2 ^ 4) ≡ x
byte_1-last x hx = rw (and_0x3 x) (omega (arith, or_join 2 (x / 4) (x % 4 * 16 / 16) (omega arith)))

pub byte_2-last : (x y : ℕ) → IsByte x → IsByte y → byte_2 (second x y) (bit_and y 15 * 2 ^ 2) ≡ y
byte_2-last x y hx hy =
    rw (second_sum x y hy, and_0xf y)
      (omega (arith, or_join 4 (x % 4 * 16 + y / 16) (y % 16 * 4 / 4) (omega arith)))

pub no_bits_of_two : (x : ℕ) → bit_and (bit_and x 3 * 2 ^ 4) 15 ≡ 0
no_bits_of_two x = omega (arith, and_0x3 x, and_0xf (bit_and x 3 * 2 ^ 4))

pub no_bits_of_three : (y : ℕ) → bit_and (bit_and y 15 * 2 ^ 2) 3 ≡ 0
no_bits_of_three y = omega (arith, and_0xf y, and_0x3 (bit_and y 15 * 2 ^ 2))
