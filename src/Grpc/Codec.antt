-- ===== src/Grpc/Codec.antt =====
-- envoy/envoy/source/common/grpc/codec.h and codec.cc: gRPC data frames.
-- A buffer is the list of its slices, a slice the list of its bytes.
pub mod Reference
pub mod RoundTrip
pub mod Tests
use meliproxy.Shared.{
  ℕ, zero, suc, ◌+◌, ◌-◌, ◌*◌, ◌/◌, ◌%◌, ◌^◌, bit_and, bit_or, Bool, true, false, Option, none,
  some, List, [], ◌∷◌, ◌++◌, ◌==◌, leb, if◌then◌else◌, length, take, drop,
}

pub data State : Type 0 where
  fh_flag fh_len_0 fh_len_1 fh_len_2 fh_len_3 frame_data : State

-- `body` is the pointer `data_`, null before a frame has data.
pub record Frame : Type 0 where
  pub flags : ℕ
  pub len : ℕ
  pub body : Option (List ℕ)

pub record Decoder : Type 0 where
  pub state : State
  pub frame : Frame

-- How a call ends, with the decoder and the output so far. `refused` is `return false`, `null_data`
-- a read through the null `data_`, and `stuck` a loop that has not ended within its fuel.
pub data Outcome : Type 0 where
  decoded refused : Decoder → List Frame → Outcome
  null_data stuck : Outcome

pub fresh : Decoder
fresh = record { state = fh_flag; frame = record { flags = 0; len = 0; body = none } }

-- The five bytes that `newFrame` stores.
unfoldable pub new_frame : ℕ → ℕ → List ℕ
new_frame flags n =
    flags ∷ (n / 2 ^ 24 % 256) ∷ (n / 2 ^ 16 % 256) ∷ (n / 2 ^ 8 % 256) ∷ (n % 256) ∷ []

-- What is left in the decoder after `std::move(frame_)`.
abbrev pub moved : Frame → Frame
moved f = record f { body = none }

-- The length bytes are joined by `|=`.
abbrev pub join : ℕ → ℕ → ℕ → ℕ
join n c k = bit_or n (c * 2 ^ k % 2 ^ 32)

abbrev pub in_header : State → Frame → ℕ → Decoder
in_header s f n = record { state = s; frame = record f { len = n } }

-- The last length byte: a frame without data is complete.
pub len_3 : List Frame → Frame → Decoder × List Frame
len_3 out f =
    if f.len == 0
    then (record { state = fh_flag; frame = moved f }, out ++ (f ∷ []))
    else (record { state = frame_data; frame = record f { body = some [] } }, out)

-- A frame with all its data goes out, and the decoder waits for the next flag.
pub close : List Frame → Frame → List ℕ → Decoder × List Frame
close out f b =
    if f.len == length b
    then (
      record { state = fh_flag; frame = record { flags = 0; len = 0; body = none } },
      out ++ (record f { body = some b } ∷ []),
    )
    else (record { state = frame_data; frame = record f { body = some b } }, out)

-- What a round of the loop leaves: the decoder, the output, and the bytes not yet taken.
abbrev pub Round : Type 0
Round = (Decoder × List Frame) × List ℕ

-- How many bytes the case DATA takes.
pub block : ℕ → ℕ → ℕ → ℕ
block len have remain_in_buffer =
    let remain_in_frame = (len + 2 ^ 64 - have) % 2 ^ 64 in
    if leb remain_in_buffer remain_in_frame then remain_in_buffer else remain_in_frame

pub data_round : List Frame → Frame → List ℕ → List ℕ → Round
data_round out f b mem =
    let n = block f.len (length b) (length mem) in (close out f (b ++ take n mem), drop n mem)

-- The switch on `state_`: a round, the return on unsupported flags, or a null pointer.
pub data Switch : Type 0 where
  goes : Round → Switch
  bad_flags null : Switch

pub switch : List Frame → Frame → State → ℕ → List ℕ → Switch
switch out f fh_flag c cs =
    if bit_and c (2 ^ 32 - 2) == 0
    then goes ((record { state = fh_len_0; frame = record f { flags = c } }, out), cs)
    else bad_flags
switch out f fh_len_0 c cs = goes ((in_header fh_len_1 f (c * 2 ^ 24 % 2 ^ 32), out), cs)
switch out f fh_len_1 c cs = goes ((in_header fh_len_2 f (join f.len c 16), out), cs)
switch out f fh_len_2 c cs = goes ((in_header fh_len_3 f (join f.len c 8), out), cs)
switch out f fh_len_3 c cs = goes (len_3 out (record f { len = join f.len c 0 }), cs)
switch out f frame_data c cs = elim f.body [
  | none ↦ null
  | some b ↦ goes (data_round out f b (c ∷ cs))
]

-- The loop over the bytes of a slice.
pub decode_slice : ℕ → Decoder → List Frame → List ℕ → Outcome
decode_slice fuel d out [] = decoded d out
decode_slice zero d out (c ∷ cs) = stuck
decode_slice (suc fuel) d out (c ∷ cs) = elim (switch out d.frame d.state c cs) [
  | goes ((d', out'), rest) ↦ decode_slice fuel d' out' rest
  | bad_flags ↦ refused d out
  | null ↦ null_data
]

-- The loop over the slices. A round takes at least one byte, so a slice's length is fuel enough.
pub decode : Decoder → List Frame → List (List ℕ) → Outcome
decode d out [] = decoded d out
decode d out (slice ∷ slices) = elim (decode_slice (length slice) d out slice) [
  | decoded d' out' ↦ decode d' out' slices
  | refused d' out' ↦ refused d' out'
  | null_data ↦ null_data
  | stuck ↦ stuck
]
