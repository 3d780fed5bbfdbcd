-- ===== src/Common/Base64.antt =====
-- envoy/envoy/source/common/common/base64.cc: encoding and decoding in base 64.
pub mod Groups
pub mod Chars
pub mod RoundTrip
pub mod Tests
use meliproxy.Shared.{
  ◌%◌, codes, get_elem?, ◌/◌, Bytes, Option, ◌==◌, not, List, bit_or, ℕ, [], ◌∷◌, ◌-◌,
  if◌then◌else◌, ◌*◌, Bool, ltb, get_or, length, ◌^◌, ◌++◌, ◌+◌, none, some, bit_and, ◌||◌,
}

-- CHAR_TABLE
abbrev char_table : Bytes
char_table = codes "ABCDEFGHIJKLMNOPQRSTUVWXYZabcdefghijklmnopqrstuvwxyz0123456789+/"

pub char_of : ℕ → ℕ
char_of i = get_or char_table i 0

-- The first half of REVERSE_LOOKUP_TABLE.
abbrev reverse_table : List ℕ
reverse_table =
    64 ∷ 64 ∷ 64 ∷ 64 ∷ 64 ∷ 64 ∷ 64 ∷ 64 ∷ 64 ∷ 64 ∷ 64 ∷ 64 ∷ 64 ∷ 64 ∷ 64 ∷ 64 ∷ 64 ∷ 64 ∷ 64
    ∷ 64 ∷ 64 ∷ 64 ∷ 64 ∷ 64 ∷ 64 ∷ 64 ∷ 64 ∷ 64 ∷ 64 ∷ 64 ∷ 64 ∷ 64 ∷ 64 ∷ 64 ∷ 64 ∷ 64 ∷ 64 ∷ 64
    ∷ 64 ∷ 64 ∷ 64 ∷ 64 ∷ 64 ∷ 62 ∷ 64 ∷ 64 ∷ 64 ∷ 63 ∷ 52 ∷ 53 ∷ 54 ∷ 55 ∷ 56 ∷ 57 ∷ 58 ∷ 59 ∷ 60
    ∷ 61 ∷ 64 ∷ 64 ∷ 64 ∷ 64 ∷ 64 ∷ 64 ∷ 64 ∷ 0 ∷ 1 ∷ 2 ∷ 3 ∷ 4 ∷ 5 ∷ 6 ∷ 7 ∷ 8 ∷ 9 ∷ 10 ∷ 11 ∷ 12
    ∷ 13 ∷ 14 ∷ 15 ∷ 16 ∷ 17 ∷ 18 ∷ 19 ∷ 20 ∷ 21 ∷ 22 ∷ 23 ∷ 24 ∷ 25 ∷ 64 ∷ 64 ∷ 64 ∷ 64 ∷ 64 ∷ 64
    ∷ 26 ∷ 27 ∷ 28 ∷ 29 ∷ 30 ∷ 31 ∷ 32 ∷ 33 ∷ 34 ∷ 35 ∷ 36 ∷ 37 ∷ 38 ∷ 39 ∷ 40 ∷ 41 ∷ 42 ∷ 43 ∷ 44
    ∷ 45 ∷ 46 ∷ 47 ∷ 48 ∷ 49 ∷ 50 ∷ 51 ∷ 64 ∷ 64 ∷ 64 ∷ 64 ∷ 64 ∷ []

-- REVERSE_LOOKUP_TABLE at `static_cast<uint32_t>` of a char. A char is signed on the platforms that
-- Envoy is built for, so a byte from 128 on becomes an index far behind the table: `none`.
pub reverse_of : ℕ → Option ℕ
reverse_of c = get_elem? reverse_table c

-- The three bytes that four values of six bits make, each cut to a char.
abbrev pub byte_1 : ℕ → ℕ → ℕ
byte_1 a b = bit_or (a * 2 ^ 2) (b / 2 ^ 4) % 256

abbrev pub byte_2 : ℕ → ℕ → ℕ
byte_2 b c = bit_or (b * 2 ^ 4) (c / 2 ^ 2) % 256

abbrev pub byte_3 : ℕ → ℕ → ℕ
byte_3 c d = bit_or (c * 2 ^ 6) d % 256

-- How the loop of `decode` ends: with a string, which is empty for an input that is not valid, or with
-- a read past the end of the table.
pub data Decoded : Type 0 where
  string : Bytes → Decoded
  past_end : Decoded

-- What is done with a third or fourth char that is not in the alphabet: `unused` are the bits of the
-- value before it that the result does not have.
abbrev pub at_padding : Bool → ℕ → Bytes → Decoded
at_padding is_padding unused result =
    if not is_padding then string [] else if not (unused == 0) then string [] else string result

-- The loop of `decode`, over the groups of four chars. `first_padding` and `cur_read` are the
-- variables of the source.
pub decode_groups : ℕ → ℕ → Bytes → Bytes → Decoded
decode_groups first_padding cur_read result (x ∷ y ∷ z ∷ w ∷ rest) = elim (reverse_of x) [
  | none ↦ past_end
  | some a ↦ elim (reverse_of y) [
    | none ↦ past_end
    | some b ↦ if a == 64 || b == 64 then string [] else elim (reverse_of z) [
      | none ↦ past_end
      | some c ↦
          let result₁ = result ++ (byte_1 a b ∷ []) in
          if c == 64
          then at_padding (first_padding == cur_read + 2) (bit_and b 15) result₁
          else elim (reverse_of w) [
            | none ↦ past_end
            | some d ↦
                let result₂ = result₁ ++ (byte_2 b c ∷ []) in
                if d == 64
                then at_padding (first_padding == cur_read + 3) (bit_and c 3) result₂
                else decode_groups first_padding (cur_read + 4) (result₂ ++ (byte_3 c d ∷ [])) rest
          ]
    ]
  ]
]
decode_groups first_padding cur_read result (x ∷ y ∷ z ∷ []) = string result
decode_groups first_padding cur_read result (x ∷ y ∷ []) = string result
decode_groups first_padding cur_read result (x ∷ []) = string result
decode_groups first_padding cur_read result [] = string result

-- The index of the first padding char at the end of the input.
pub first_padding_index : Bytes → ℕ
first_padding_index input =
    let n = length input in
    if get_or input (n - 1) 0 == b'='
    then (if get_or input (n - 2) 0 == b'=' then n - 2 else n - 1)
    else n

-- `decode`. The loop takes four chars in a round, and the length is a multiple of four.
pub decode : Bytes → Decoded
decode input =
    if not (length input % 4 == 0) || length input == 0
    then string []
    else decode_groups (first_padding_index input) 0 [] input

-- `encodeBase`, with `next_c` and what it writes.
pub encode_base : ℕ → ℕ → ℕ → Bytes × ℕ
encode_base cur_char pos next_c =
    if pos % 3 == 0
    then (char_of (cur_char / 2 ^ 2) ∷ [], bit_and cur_char 3 * 2 ^ 4)
    else if pos % 3 == 1
    then (char_of (bit_or next_c (cur_char / 2 ^ 4)) ∷ [], bit_and cur_char 15 * 2 ^ 2)
    else (char_of (bit_or next_c (cur_char / 2 ^ 6)) ∷ char_of (bit_and cur_char 63) ∷ [], 0)

-- `encodeLast`
pub encode_last : ℕ → ℕ → Bytes
encode_last pos last_char =
    if pos % 3 == 1
    then char_of last_char ∷ b'=' ∷ b'=' ∷ []
    else if pos % 3 == 2
    then char_of last_char ∷ b'=' ∷ []
    else []

-- `encode` of a string, with the loop's `pos` and `next_c`.
pub encode_loop : ℕ → ℕ → Bytes → Bytes
encode_loop pos next_c [] = encode_last pos next_c
encode_loop pos next_c (x ∷ xs) =
    let (chars, next_c₁) = encode_base x pos next_c in chars ++ encode_loop (pos + 1) next_c₁ xs

pub encode : Bytes → Bytes
encode input = encode_loop 0 0 input

-- The loop over a slice in `encode` of a buffer: what it writes, and `j` and `next_c` behind it.
pub encode_slice : ℕ → ℕ → ℕ → Bytes → Bytes × (ℕ × ℕ)
encode_slice limit j next_c [] = ([], (j, next_c))
encode_slice limit j next_c (x ∷ xs) =
    let (chars, next_c₁) = encode_base x j next_c in
    let (more, end) = encode_slice limit (j + 1) next_c₁ xs in
    if ltb j limit then (chars ++ more, end) else ([], (j, next_c))

pub encode_slices : ℕ → ℕ → ℕ → List Bytes → Bytes
encode_slices limit j next_c [] = encode_last j next_c
encode_slices limit j next_c (slice ∷ slices) =
    let (chars, (j₁, next_c₁)) = encode_slice limit j next_c slice in
    let more = encode_slices limit j₁ next_c₁ slices in
    chars ++ (if j₁ == limit then encode_last j₁ next_c₁ else more)

-- `encode` of the first `limit` bytes of a buffer.
pub encode_buffer : List Bytes → ℕ → Bytes
encode_buffer slices limit = encode_slices limit 0 0 slices
