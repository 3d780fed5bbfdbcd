-- ===== src/Common/StringUtil.antt =====
-- envoy/envoy/source/common/common/utility.cc: the class StringUtil.
-- A string is the list of its bytes; an index into it is how many bytes stand before.
pub mod Split
pub mod Digits
pub mod Tests
use meliproxy.Shared.{
  bytes_eq, zero, ◌%◌, ◌==◌, map, Option, List, ◌∷◌, true, Bytes, ◌&&◌, [], suc, false, ◌++◌, ◌-◌,
  ◌/◌, reverse, ◌+◌, some, ◌||◌, Bool, take, ltb, none, not, drop, ℕ, if◌then◌else◌, length, ◌^◌,
}

-- What strtoul of the C library gives: the value, what it stopped at, and whether errno is ERANGE.
pub record Strtoul : Type 0 where
  pub value : ℕ
  pub stop : Bytes
  pub erange : Bool

abbrev pub is_empty : Bytes → Bool
is_empty [] = true
is_empty (c ∷ cs) = false

-- `strtoul` is the C library's.
unfoldable pub atoul : (Bytes → ℕ → Strtoul) → Bytes → ℕ → Option ℕ
atoul strtoul str base =
    if is_empty str
    then none
    else (let r = strtoul str base in
        if not (is_empty r.stop) || (r.value == 2 ^ 64 - 1 && r.erange) then none else some r.value)

abbrev pub digit : ℕ → ℕ
digit n = b'0' + n % 10

-- The digits of a number, lowest first: the loop of `itoa` before it turns them round.
pub low_digits : ℕ → ℕ → Bytes
low_digits zero i = digit i ∷ []
low_digits (suc fuel) i =
    let rest = low_digits fuel (i / 10) in if i / 10 == 0 then digit i ∷ [] else digit i ∷ rest

-- `itoa`; `none` is the exception for a buffer below 21 bytes. A uint64_t has 20 digits at most.
pub itoa : ℕ → ℕ → Option Bytes
itoa buffer_size i = if ltb buffer_size 21 then none else some (reverse (low_digits 19 i))

abbrev pub is_prefix : Bytes → Bytes → Bool
is_prefix [] ys = true
is_prefix (x ∷ xs) [] = false
is_prefix (x ∷ xs) (y ∷ ys) = x == y && is_prefix xs ys

-- `source.find(split, 0)`: what stands before the first occurrence and what stands behind it.
pub find : Bytes → Bytes → Option (Bytes × Bytes)
find split [] = none
find split (c ∷ cs) =
    if is_prefix split (c ∷ cs)
    then some ([], drop (length split) (c ∷ cs))
    else elim (find split cs) [ none ↦ none | some (before, rest) ↦ some (c ∷ before, rest) ]

abbrev pub keep : Bool → Bytes → List Bytes
keep keep_empty piece = if not (is_empty piece) || keep_empty then piece ∷ [] else []

-- The loop of `split`, on what is left of the source. It ends when the separator is not found; where
-- the source ends by the separator, one more round finds the empty rest.
pub split_loop : ℕ → Bytes → Bytes → Bool → List Bytes
split_loop zero source split keep_empty = []
split_loop (suc fuel) source split keep_empty = elim (find split source) [
  | none ↦ keep keep_empty source
  | some (piece, rest) ↦ keep keep_empty piece ++ split_loop fuel rest split keep_empty
]

-- A round takes the separator off, so the source's length and one more is fuel enough.
pub split : Bytes → Bytes → Bool → List Bytes
unfolding split_loop find
split source sep keep_empty =
    if is_empty sep then source ∷ [] else split_loop (length source + 1) source sep keep_empty

pub starts_with : Bytes → Bytes → Bool
starts_with source start = is_prefix start source

pub ends_with : Bytes → Bytes → Bool
ends_with source end =
    if ltb (length source) (length end)
    then false
    else bytes_eq (drop (length source - length end) source) end

-- `c_str()` as a C string: the bytes before the first one that is 0.
abbrev pub c_str : Bytes → Bytes
c_str [] = []
c_str (c ∷ cs) = if c == 0 then [] else c ∷ c_str cs

-- The stream that `join` fills: behind each entry the delimiter.
abbrev pub delimited : List Bytes → Bytes → Bytes
delimited [] delimiter = []
delimited (x ∷ xs) delimiter = x ++ (delimiter ++ delimited xs delimiter)

-- `join`, where the stream writes the delimiter up to its first 0 behind each entry, and as much as the whole
-- delimiter is cut off again. When that is longer than what was written, the cut's length wraps, and `substr`
-- takes all of it.
pub join : List Bytes → Bytes → Bytes
join source delimiter =
    let ret = delimited source (c_str delimiter) in
    take ((length ret + 2 ^ 64 - length delimiter) % 2 ^ 64) ret

abbrev pub is_space : ℕ → Bool
is_space c = c == 32 || (c == 9 || (c == 12 || (c == 11 || (c == 10 || c == 13))))

-- `rtrim` erases behind the last byte that is no white space.
pub rtrim : Bytes → Bytes
rtrim [] = []
rtrim (c ∷ cs) = let rest = rtrim cs in if is_empty rest && is_space c then [] else c ∷ rest

pub escape : Bytes → Bytes
escape [] = []
escape (c ∷ cs) =
    let rest = escape cs in
    if c == 13
    then b'\\' ∷ b'r' ∷ rest
    else if c == 10
    then b'\\' ∷ b'n' ∷ rest
    else if c == 9
    then b'\\' ∷ b't' ∷ rest
    else if c == b'"'
    then b'\\' ∷ b'"' ∷ rest
    else c ∷ rest
