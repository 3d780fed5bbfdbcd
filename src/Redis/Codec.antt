-- ===== src/Redis/Codec.antt =====
-- envoy/envoy/source/common/redis/codec_impl.h and codec_impl.cc: values and the decoder.
-- A buffer is the list of its slices, a slice the list of its bytes.
use meliproxy.Shared.{
  zero, length, ℕ, inc64, if◌then◌else◌, ◌+◌, false, ◌++◌, some, Bytes, ◌==◌, ltb, codes, Option,
  not, ◌*◌, true, none, List, ◌∷◌, drop, Bool, min, [], ◌^◌, ◌-◌, ◌||◌, ◌%◌, suc, take,
}
pub mod Steps
pub mod Ends
pub mod Tests

-- `RespValue`. An integer is its 64-bit word. A vector of values is a type of its own.
mutual
  pub data RespValue : Type 0 where
    null : RespValue
    simple_string bulk_string error : Bytes → RespValue
    integer : ℕ → RespValue
    array : Values → RespValue

  pub data Values : Type 0 where
    no_values : Values
    value_then : RespValue → Values → Values

pub size : Values → ℕ
size no_values = 0
size (value_then v vs) = suc (size vs)

-- `std::vector<RespValue> values(n)`
pub nulls : ℕ → Values
nulls zero = no_values
nulls (suc n) = value_then null (nulls n)

-- Writes a vector's element.
pub put : Values → ℕ → RespValue → Values
put no_values i w = no_values
put (value_then v vs) zero w = value_then w vs
put (value_then v vs) (suc i) w = value_then v (put vs i w)

mutual
  -- `toString`, where `to_string` is the standard library's for an int64_t.
  pub to_string : (ℕ → Bytes) → RespValue → Bytes
  to_string std null = codes "null"
  to_string std (simple_string s) = b'"' ∷ (s ++ (b'"' ∷ []))
  to_string std (bulk_string s) = b'"' ∷ (s ++ (b'"' ∷ []))
  to_string std (error s) = b'"' ∷ (s ++ (b'"' ∷ []))
  to_string std (integer n) = std n
  to_string std (array vs) = b'[' ∷ (elements_to_string std vs ++ (b']' ∷ []))

  elements_to_string : (ℕ → Bytes) → Values → Bytes
  elements_to_string std no_values = []
  elements_to_string std (value_then v no_values) = to_string std v
  elements_to_string std (value_then v (value_then w vs)) =
      to_string std v ++ (codes ", " ++ elements_to_string std (value_then w vs))

pub data State : Type 0 where
  value_root_start value_start integer_start integer_digits integer_lf bulk_string_body cr lf
        simple_string_body value_complete :
      State

-- `PendingValue`. The source's pointer leads into the array of the entry behind. Here the value is
-- kept in its own entry, and is written into that array when it is complete.
pub record Pending : Type 0 where
  pub value : RespValue
  pub current_array_element : ℕ

-- `DecoderImpl`, with the most elements that the standard library's vector of values may have: `max_size()`.
pub record Decoder : Type 0 where
  pub max_size : ℕ
  pub state : State
  pub pending_integer : ℕ
  pub negative : Bool
  pub stack : List Pending

pub fresh : (max_size : ℕ) → Decoder
fresh max_size = record {
  max_size = max_size;
  state = value_root_start;
  pending_integer = 0;
  negative = false;
  stack = [];
}

-- What a round of the loop leaves: the decoder, the values given to the callback, and the bytes not
-- yet taken; or the exception ProtocolError, or the one of the standard library for a vector that is too long; or
-- a use of the union or of the stack that the language leaves
-- undefined.
pub data Round : Type 0 where
  goes : Decoder → List RespValue → Bytes → Round
  protocol_error length_error undefined : Round

-- Gives the value at the front of the stack another content.
abbrev pub front : Decoder → (RespValue → RespValue) → Decoder
front d f = elim d.stack [
  | [] ↦ d
  | p ∷ ps ↦ record d { stack = record p { value = f p.value } ∷ ps }
]

abbrev pub go_on : State → Decoder → Decoder
go_on s d = record d { state = s }

-- case ValueStart. A byte that is no type is an exception.
pub start_value : Decoder → ℕ → Bytes → Round
start_value d c rest =
    let d₀ = record d { pending_integer = 0; negative = false } in
    if c == b'*'
    then goes (go_on integer_start (front d₀ (λ v. array no_values))) [] rest
    else if c == b'$'
    then goes (go_on integer_start (front d₀ (λ v. bulk_string []))) [] rest
    else if c == b'-'
    then goes (go_on simple_string_body (front d₀ (λ v. error []))) [] rest
    else if c == b'+'
    then goes (go_on simple_string_body (front d₀ (λ v. simple_string []))) [] rest
    else if c == b':'
    then goes (go_on integer_start (front d₀ (λ v. integer 0))) [] rest
    else protocol_error

-- case IntegerStart
pub start_integer : Decoder → ℕ → Bytes → Round
start_integer d c rest =
    if c == b'-'
    then goes (record d { state = integer_digits; negative = true }) [] rest
    else goes (go_on integer_digits d) [] (c ∷ rest)

-- case Integer
pub take_digit : Decoder → ℕ → Bytes → Round
take_digit d c rest =
    if c == 13
    then goes (go_on integer_lf d) [] rest
    else if ltb c b'0' || ltb b'9' c
    then protocol_error
    else goes (record d { pending_integer = (d.pending_integer * 10 + (c - b'0')) % 2 ^ 64 }) []
        rest

-- The word that `static_cast<int64_t>(n - 1) * -1 - 1` makes. At 2^63 + 1 the product overflows, and wraps here.
abbrev pub negated : ℕ → ℕ
negated n = (2 ^ 64 - (n + 2 ^ 64 - 1) % 2 ^ 64 + 2 ^ 64 - 1) % 2 ^ 64

-- case IntegerLF, for an array. The size of a vector is bounded.
pub sized_array : Decoder → Bytes → Round
sized_array d rest =
    let d₁ = front d (λ v. array (nulls d.pending_integer)) in
    if d.negative
    then goes (go_on value_complete (front d (λ v. null))) [] rest
    else if d.pending_integer == 0
    then goes (go_on value_complete d) [] rest
    else if ltb d.max_size d.pending_integer
    then length_error
    else goes
        (record d₁ {
          state = value_start;
          stack = record { value = null; current_array_element = 0 } ∷ d₁.stack;
        })
        [] rest

-- case IntegerLF, for an integer.
pub whole_integer : Decoder → Bytes → Round
whole_integer d rest =
    let n =
      if d.pending_integer == 0 || not d.negative
      then d.pending_integer
      else negated d.pending_integer in
    goes (go_on value_complete (front d (λ v. integer n))) [] rest

-- case IntegerLF, for a bulk string.
pub sized_string : Decoder → Bytes → Round
sized_string d rest =
    if not d.negative
    then goes (go_on bulk_string_body d) [] rest
    else goes (go_on value_complete (front d (λ v. null))) [] rest

-- The rest of case IntegerLF, by the type of the value at the front.
pub integer_known : Decoder → Bytes → Round
integer_known d rest = elim d.stack [
  | [] ↦ undefined
  | p ∷ ps ↦ elim p.value [
    | array vs ↦ sized_array d rest
    | integer n ↦ whole_integer d rest
    | bulk_string s ↦ sized_string d rest
    | simple_string s ↦ sized_string d rest
    | error s ↦ sized_string d rest
    | null ↦ sized_string d rest
  ]
]

pub end_integer : Decoder → ℕ → Bytes → Round
end_integer d c rest = if c == 10 then integer_known d rest else protocol_error

-- `asString()` with bytes put behind, `none` where the union holds no string.
pub append : RespValue → Bytes → Option RespValue
append (simple_string s) bytes = some (simple_string (s ++ bytes))
append (bulk_string s) bytes = some (bulk_string (s ++ bytes))
append (error s) bytes = some (error (s ++ bytes))
append null bytes = none
append (integer n) bytes = none
append (array vs) bytes = none

pub append_front : Decoder → Bytes → Option Decoder
append_front d bytes = elim d.stack [
  | [] ↦ none
  | p ∷ ps ↦ elim (append p.value bytes) [
    | none ↦ none
    | some v ↦ some (record d { stack = record p { value = v } ∷ ps })
  ]
]

-- case BulkStringBody
pub take_body : Decoder → Bytes → Round
take_body d buffer =
    let n = min d.pending_integer (length buffer) in
    elim (append_front d (take n buffer)) [
      | none ↦ undefined
      | some d₁ ↦
          goes
            (record d₁ {
              pending_integer = d.pending_integer - n;
              state = if d.pending_integer - n == 0 then cr else bulk_string_body;
            })
            [] (drop n buffer)
    ]

-- cases CR and LF
pub expect : ℕ → State → Decoder → ℕ → Bytes → Round
expect byte next d c rest = if c == byte then goes (go_on next d) [] rest else protocol_error

-- case SimpleString
pub take_char : Decoder → ℕ → Bytes → Round
take_char d c rest =
    if c == 13
    then goes (go_on lf d) [] rest
    else elim (append_front d (c ∷ [])) [ none ↦ undefined | some d₁ ↦ goes d₁ [] rest ]

-- What case ValueComplete does with the array behind the value.
pub in_array : Decoder → RespValue → Pending → Values → List Pending → Bytes → Round
in_array d v p vs ps buffer =
    let p₁ = record p { value = array (put vs p.current_array_element v) } in
    if ltb p.current_array_element ((size vs + 2 ^ 64 - 1) % 2 ^ 64)
    then goes
        (record d {
          state = value_start;
          stack =
              record { value = null; current_array_element = 0 }
              ∷ record p₁ { current_array_element = inc64 p.current_array_element }
              ∷ ps;
        })
        [] buffer
    else goes (record d { stack = p₁ ∷ ps }) [] buffer

-- case ValueComplete
pub complete_value : Decoder → List Pending → Bytes → Round
complete_value d [] buffer = undefined
complete_value d (v ∷ []) buffer =
    goes (record d { state = value_root_start; stack = [] }) (v.value ∷ []) buffer
complete_value d (v ∷ p ∷ ps) buffer = elim p.value [
  | array vs ↦ in_array d v.value p vs ps buffer
  | null ↦ undefined
  | simple_string s ↦ undefined
  | bulk_string s ↦ undefined
  | error s ↦ undefined
  | integer n ↦ undefined
]

-- case ValueRootStart
pub start_root : Decoder → Bytes → Round
start_root d buffer =
    goes
      (record d {
        state = value_start;
        stack = record { value = null; current_array_element = 0 } ∷ d.stack;
      })
      [] buffer

-- The switch on a state that reads a byte.
pub read : Decoder → State → ℕ → Bytes → Round
read d value_root_start c rest = start_root d (c ∷ rest)
read d value_start c rest = start_value d c rest
read d integer_start c rest = start_integer d c rest
read d integer_digits c rest = take_digit d c rest
read d integer_lf c rest = end_integer d c rest
read d bulk_string_body c rest = take_body d (c ∷ rest)
read d cr c rest = expect 13 lf d c rest
read d lf c rest = expect 10 value_complete d c rest
read d simple_string_body c rest = take_char d c rest
read d value_complete c rest = complete_value d d.stack (c ∷ rest)

-- `parseSlice` goes on without bytes only in ValueComplete.
abbrev pub is_complete : State → Bool
is_complete value_complete = true
is_complete value_root_start = false
is_complete value_start = false
is_complete integer_start = false
is_complete integer_digits = false
is_complete integer_lf = false
is_complete bulk_string_body = false
is_complete cr = false
is_complete lf = false
is_complete simple_string_body = false

pub data Outcome : Type 0 where
  decoded : Decoder → List RespValue → Outcome
  failed overlong : List RespValue → Outcome
  misused stuck : Outcome

abbrev pub ends : Decoder → Bytes → Bool
ends d [] = not (is_complete d.state)
ends d (c ∷ cs) = false

abbrev pub round : Decoder → Bytes → Round
round d [] = complete_value d d.stack []
round d (c ∷ cs) = read d d.state c cs

-- The loop of `parseSlice`, with the values given to the callback so far.
pub parse_loop : ℕ → Decoder → List RespValue → Bytes → Outcome
parse_loop zero d out buffer = if ends d buffer then decoded d out else stuck
parse_loop (suc fuel) d out buffer =
    if ends d buffer then decoded d out else elim (round d buffer) [
      | goes d₁ new rest ↦ parse_loop fuel d₁ (out ++ new) rest
      | protocol_error ↦ failed out
      | length_error ↦ overlong out
      | undefined ↦ misused
    ]

-- Rounds that take no byte are at most four to a byte and one to an entry of the stack.
pub parse_slice : Decoder → List RespValue → Bytes → Outcome
parse_slice d out slice = parse_loop (4 * length slice + length d.stack + 3) d out slice

pub decode : Decoder → List RespValue → List Bytes → Outcome
decode d out [] = decoded d out
decode d out (slice ∷ slices) = elim (parse_slice d out slice) [
  | decoded d₁ out₁ ↦ decode d₁ out₁ slices
  | failed out₁ ↦ failed out₁
  | overlong out₁ ↦ overlong out₁
  | misused ↦ misused
  | stuck ↦ stuck
]
