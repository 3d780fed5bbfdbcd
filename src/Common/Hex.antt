-- ===== src/Common/Hex.antt =====
-- envoy/envoy/source/common/common/hex.cc: bytes as hexadecimal digits.
use meliproxy.Common.StringUtil.{Strtoul, atoul}
use meliproxy.Shared.{
  Bytes, if◌then◌else◌, length, ◌^◌, ◌%◌, Option, none, ◌||◌, bit_and, ℕ, [], not, get_or, some,
  ◌==◌, codes, ◌∷◌, ◌/◌,
}

-- An entry of `digits`.
pub digit : ℕ → ℕ
digit d = get_or (codes "0123456789abcdef") d 0

pub encode : Bytes → Bytes
encode [] = []
encode (d ∷ ds) = digit (d / 2 ^ 4) ∷ digit (bit_and d 15) ∷ encode ds

-- The loop of `decode`, over the pairs of chars. `strtoul` is the C library's.
pub decode_pairs : (Bytes → ℕ → Strtoul) → Bytes → Option Bytes
decode_pairs strtoul (x ∷ y ∷ rest) = elim (atoul strtoul (x ∷ y ∷ []) 16) [
  | none ↦ none
  | some out ↦ elim (decode_pairs strtoul rest) [
    | none ↦ none
    | some segment ↦ some (out % 256 ∷ segment)
  ]
]
decode_pairs strtoul (x ∷ []) = none
decode_pairs strtoul [] = some []

-- `decode`; `none` is the exception.
pub decode : (Bytes → ℕ → Strtoul) → Bytes → Option Bytes
decode strtoul hex =
    if length hex == 0 || not (length hex % 2 == 0) then none else decode_pairs strtoul hex

-- `uint64ToHex`
pub uint64_to_hex : ℕ → Bytes
uint64_to_hex value = encode (
    value / 2 ^ 56 % 256
    ∷ (value / 2 ^ 48 % 256)
    ∷ (value / 2 ^ 40 % 256)
    ∷ (value / 2 ^ 32 % 256)
    ∷ (value / 2 ^ 24 % 256)
    ∷ (value / 2 ^ 16 % 256)
    ∷ (value / 2 ^ 8 % 256)
    ∷ (value % 256)
    ∷ [])
