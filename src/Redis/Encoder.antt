-- ===== src/Redis/Encoder.antt =====
-- envoy/envoy/source/common/redis/codec_impl.cc: EncoderImpl, which writes a value to a buffer.
-- What `itoa` writes. It refuses buffers below 21 bytes, and these have 30 and 31.
use meliproxy.Common.StringUtil.{itoa}
use meliproxy.Redis.Codec.{
  RespValue, Values, null, simple_string, bulk_string, error, integer, array, no_values, value_then,
  size,
}
use meliproxy.Shared.{
  ◌^◌, [], ℕ, ◌∷◌, ◌+◌, length, none, Bytes, Option, if◌then◌else◌, ◌++◌, ◌-◌, codes, ◌%◌, ltb,
  some,
}

abbrev pub written : Option Bytes → Bytes
written none = []
written (some bytes) = bytes

abbrev pub crlf : Bytes
crlf = 13 ∷ 10 ∷ []

pub encode_bulk_string : Bytes → Bytes
encode_bulk_string s = b'$' ∷ (written (itoa 31 (length s)) ++ (crlf ++ (s ++ crlf)))

pub encode_error : Bytes → Bytes
encode_error s = b'-' ∷ (s ++ crlf)

pub encode_simple_string : Bytes → Bytes
encode_simple_string s = b'+' ∷ (s ++ crlf)

-- The magnitude of a negative integer, `static_cast<uint64_t>((integer + 1) * -1) + 1`.
abbrev pub magnitude : ℕ → ℕ
magnitude n = ((2 ^ 64 - (n + 1) % 2 ^ 64) % 2 ^ 64 + 1) % 2 ^ 64

pub encode_integer : ℕ → Bytes
encode_integer n =
    if ltb n (2 ^ 63)
    then b':' ∷ (written (itoa 31 n) ++ crlf)
    else b':' ∷ b'-' ∷ (written (itoa 30 (magnitude n)) ++ crlf)

mutual
  pub encode : RespValue → Bytes
  encode (array vs) = b'*' ∷ (written (itoa 31 (size vs)) ++ (crlf ++ encode_array vs))
  encode (simple_string s) = encode_simple_string s
  encode (bulk_string s) = encode_bulk_string s
  encode (error s) = encode_error s
  encode null = codes "$-1" ++ crlf
  encode (integer n) = encode_integer n

  encode_array : Values → Bytes
  encode_array no_values = []
  encode_array (value_then v vs) = encode v ++ encode_array vs
