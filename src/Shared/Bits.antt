-- ===== src/Shared/Bits.antt =====
-- Bitwise operations on words: fields joined by `|`, low masks by `&`, and facts by table.
use Prim.Native.Nat.{
  ℕ, zero, suc, ◌+◌, ◌*◌, ◌/◌, ◌%◌, ◌^◌, ◌≤◌, ◌<◌, min, max, bit_and, bit_or, digits,
  bit_or-bitwise, bit_and-bitwise,
}
use mathlib.Core.Path.{◌≡◌, refl, ap}
use mathlib.Core.Bool.{Bool, true, ◌&&◌}
use native.Mathlib.Omega.{arith}
use native.Mathlib.Nat.{pow-suc, div-div-eq-div-mul}
use mathlib.Core.Path.{◌∙◌}
use meliproxy.Shared.Tests.{◌==◌, ==_iff}

-- Checks a test at every value below a bound.
unfoldable pub all_below : (ℕ → Bool) → ℕ → Bool
all_below p zero = true
all_below p (suc n) = p n && all_below p n

all_below_lem : (p : ℕ → Bool) (n i : ℕ) → all_below p n ≡ true → i < n → p i ≡ true
unfolding all_below
all_below_lem p zero i e h = absurd (omega arith)
all_below_lem p (suc n) i e h = ground (arith, all_below_lem p n i)

-- Two functions that agree by table agree below the bound.
unfoldable pub table : ℕ → (ℕ → ℕ) → (ℕ → ℕ) → Bool
unfolding all_below
table n f g = all_below (λ i. f i == g i) n

pub table_lem : (n : ℕ) (f g : ℕ → ℕ) → table n f g ≡ true → (i : ℕ) → i < n → f i ≡ g i
unfolding table
table_lem n f g e i h = (==_iff (f i) (g i)).0 (all_below_lem (λ j. f j == g j) n i e h)

-- More fuel than the first operand's value changes nothing in the digit recursion.
module _ (z : ℕ → ℕ) (f : ℕ → ℕ → ℕ) where
  spare_fuel : (k n a b : ℕ) → a ≤ n → a ≤ k → digits z f k a b ≡ digits z f n a b
  spare_fuel zero zero a b h g = refl
  spare_fuel zero (suc n) zero b h g = refl
  spare_fuel zero (suc n) (suc a) b h g = elim g [ ]
  spare_fuel (suc k) n zero b h g = no_digits k n b
    where
      no_digits : (k n b : ℕ) → digits z f (suc k) 0 b ≡ digits z f n 0 b
      no_digits k zero b = refl
      no_digits k (suc n) b = refl
  spare_fuel (suc k) zero (suc a) b h g = elim h [ ]
  spare_fuel (suc k) (suc n) (suc a) b h g =
      omega (arith, spare_fuel k n (suc a / 2) (b / 2) (omega arith) (omega arith))

or_digit : (a b : ℕ) → bit_or a b ≡ bit_or (a / 2) (b / 2) * 2 + max (a % 2) (b % 2)
or_digit zero b = omega (arith, bit_or-bitwise 0 b, bit_or-bitwise 0 (b / 2))
or_digit (suc a) b = omega (
  arith,
  bit_or-bitwise (suc a) b,
  bit_or-bitwise (suc a / 2) (b / 2),
  spare_fuel (λ y. y) max a (suc a / 2) (suc a / 2) (b / 2) (omega arith) (omega arith),
)

and_digit : (a b : ℕ) → bit_and a b ≡ bit_and (a / 2) (b / 2) * 2 + min (a % 2) (b % 2)
and_digit zero b = omega (arith, bit_and-bitwise 0 b, bit_and-bitwise 0 (b / 2))
and_digit (suc a) b = omega (
  arith,
  bit_and-bitwise (suc a) b,
  bit_and-bitwise (suc a / 2) (b / 2),
  spare_fuel (λ y. 0) min a (suc a / 2) (suc a / 2) (b / 2) (omega arith) (omega arith),
)

or_none : (n a : ℕ) → a ≤ n → bit_or a 0 ≡ a
or_none n zero h = refl
or_none zero (suc a) h = elim h [ ]
or_none (suc n) (suc a) h = omega (arith, or_digit (suc a) 0, or_none n (suc a / 2) (omega arith))

and_none : (n a : ℕ) → a ≤ n → bit_and a 0 ≡ 0
and_none n zero h = refl
and_none zero (suc a) h = elim h [ ]
and_none (suc n) (suc a) h =
    omega (arith, and_digit (suc a) 0, and_none n (suc a / 2) (omega arith))

scale_twice : (q k : ℕ) → q * 2 ^ suc k ≡ 2 * (q * 2 ^ k)
scale_twice q k = omega (arith, ap (λ (t : ℕ). q * t) (pow-suc 2 k))

-- `(q << k) | r` is a sum when `r` fits below bit `k`.
pub or_join : (k q r : ℕ) → r < 2 ^ k → bit_or (q * 2 ^ k) r ≡ q * 2 ^ k + r
or_join zero q r h = ground (arith, or_none q q)
or_join (suc k) q r h = ground (
  arith,
  pow-suc 2 k,
  scale_twice q k,
  or_digit (q * 2 ^ suc k) r,
  or_join k q (r / 2) (omega (arith, pow-suc 2 k)),
)

pub bit_and-none : (a : ℕ) → bit_and a 0 ≡ 0
bit_and-none a = and_none a a (omega arith)

-- A word that `|` makes is no wider than its parts.
pub or_bound : (k a b : ℕ) → a < 2 ^ k → b < 2 ^ k → bit_or a b < 2 ^ k
or_bound zero zero zero h g = omega arith
or_bound zero zero (suc b) h g = absurd (omega arith)
or_bound zero (suc a) b h g = absurd (omega arith)
or_bound (suc k) a b h g = omega (
  arith,
  pow-suc 2 k,
  or_digit a b,
  or_bound k (a / 2) (b / 2) (omega (arith, pow-suc 2 k)) (omega (arith, pow-suc 2 k)),
)

div_twice : (a k : ℕ) → a / 2 / 2 ^ k ≡ a / 2 ^ suc k
div_twice a k = div-div-eq-div-mul a 2 (2 ^ k) ∙ ap (λ (t : ℕ). a / t) (omega (arith, pow-suc 2 k))

-- `&` with one bit.
pub and_bit : (k a : ℕ) → bit_and a (2 ^ k) ≡ a / 2 ^ k % 2 * 2 ^ k
and_bit zero a = omega (arith, and_digit a 1, bit_and-none (a / 2))
and_bit (suc k) a = ground (
  arith,
  pow-suc 2 k,
  and_digit a (2 ^ suc k),
  and_bit k (a / 2),
  div_twice a k,
  scale_twice (a / 2 ^ suc k % 2) k,
)

-- `&` with a low mask of up to three bits, which a mask inside a word shifts down to.
and_one : (a : ℕ) → bit_and a 1 ≡ a % 2
and_one a = omega (arith, and_digit a 1, bit_and-none (a / 2))

and_three : (a : ℕ) → bit_and a 3 ≡ a % 4
and_three a = omega (arith, and_digit a 3, and_one (a / 2))

and_seven : (a : ℕ) → bit_and a 7 ≡ a % 8
and_seven a = omega (arith, and_digit a 7, and_three (a / 2))

pub and_0x70 : (a : ℕ) → bit_and a 0x70 ≡ a / 16 % 8 * 16
and_0x70 a = omega (
  arith,
  and_digit a 0x70,
  and_digit (a / 2) 0x38,
  and_digit (a / 2 / 2) 0x1c,
  and_digit (a / 2 / 2 / 2) 0xe,
  and_seven (a / 2 / 2 / 2 / 2),
)

-- `|` bit by bit.
pub or_bit : (k a b : ℕ) → bit_or a b / 2 ^ k % 2 ≡ max (a / 2 ^ k % 2) (b / 2 ^ k % 2)
or_bit zero a b = omega (arith, or_digit a b)
or_bit (suc k) a b =
    let h : bit_or a b / 2 ≡ bit_or (a / 2) (b / 2) = omega (arith, or_digit a b) in
    rw (← div_twice (bit_or a b) k, ← div_twice a k, ← div_twice b k, h) (or_bit k (a / 2) (b / 2))

-- `&` with the masks of two, four and six bits.
pub and_0x3 : (a : ℕ) → bit_and a 3 ≡ a % 4
and_0x3 a = and_three a

pub and_0xf : (a : ℕ) → bit_and a 15 ≡ a % 16
and_0xf a = omega (arith, and_digit a 15, and_seven (a / 2))

pub and_0x3f : (a : ℕ) → bit_and a 63 ≡ a % 64
and_0x3f a = omega (arith, and_digit a 63, and_digit (a / 2) 31, and_0xf (a / 2 / 2))
