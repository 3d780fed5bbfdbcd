-- ===== src/Redis/Codec/Tests.antt =====
-- Runs of the Redis codec, and its theorem at concrete inputs.
use meliproxy.Redis.Codec.{
  start_root, start_value, start_integer, take_digit, end_integer, integer_known, sized_array,
  sized_string, nulls, take_body, append_front, append, expect, complete_value, in_array, size, put,
  bulk_string, array, null, fresh, decoded, value_then, no_values, parse_slice, parse_loop, read,
  bulk_string, Decoder, decode, integer_digits, fresh, parse_slice, parse_loop, read, start_root,
  start_value, start_integer, take_digit, end_integer, integer_known, sized_array, sized_string,
  nulls, take_body, append_front,
}
use meliproxy.Shared.{List, Bytes, ◌++◌, codes, false, [], ◌∷◌, refl, ◌≡◌, true}

-- "*2", "$2", "hi" and "$-1", cut inside the string.
abbrev cut : List Bytes
cut =
    (codes "*2" ++ (13 ∷ 10 ∷ []))
    ∷ (codes "$2" ++ (13 ∷ 10 ∷ b'h' ∷ []))
    ∷ (b'i' ∷ 13 ∷ 10 ∷ [])
    ∷ (codes "$-1" ++ (13 ∷ 10 ∷ []))
    ∷ []

abbrev half_read : Decoder
half_read = record {
  state = integer_digits;
  pending_integer = 1;
  negative = false;
  max_size = 100;
  stack = record { value = bulk_string []; current_array_element = 0 } ∷ [];
}

-- An array of a string and a null, cut inside the string.
decode_array :
    decode (fresh 100) [] cut
    ≡ decoded
        (record (fresh 100) { pending_integer = 1; negative = true })
        (array (value_then (bulk_string (codes "hi")) (value_then null no_values)) ∷ [])
unfolding decode fresh parse_slice parse_loop read start_root start_value start_integer take_digit
    end_integer integer_known sized_array sized_string nulls take_body append_front append expect
    complete_value in_array size put
decode_array = refl
