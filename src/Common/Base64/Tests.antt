-- ===== src/Common/Base64/Tests.antt =====
-- Runs of the base 64 coding, and its theorem at concrete inputs.
use meliproxy.Common.Base64.{
  encode, decode, encode_buffer, string, past_end, encode_loop, encode_base, encode_last, char_of,
  decode_groups, reverse_of, first_padding_index,
}
use meliproxy.Common.Base64.RoundTrip.{decode-encode}
use meliproxy.Common.Base64.Groups.{concat, encode_buffer-encode}
use meliproxy.Shared.{◌≡◌, refl, take, [], ◌∷◌, List, Bytes, codes, arith}

encode_foob : encode (codes "foob") ≡ codes "Zm9vYg=="
unfolding encode encode_loop encode_base encode_last char_of
encode_foob = refl

decode_foob : decode (codes "Zm9vYg==") ≡ string (codes "foob")
unfolding decode decode_groups reverse_of first_padding_index
decode_foob = refl

-- Bits that the result has no room for make the input invalid.
decode_unused_bits : decode (codes "Zm9vYh==") ≡ string []
unfolding decode decode_groups reverse_of first_padding_index
decode_unused_bits = refl

-- A byte from 128 on is looked up behind the end of the table.
decode_high_byte : decode (200 ∷ 65 ∷ 65 ∷ 65 ∷ []) ≡ past_end
unfolding decode decode_groups reverse_of first_padding_index
decode_high_byte = refl

abbrev two_slices : List Bytes
two_slices = codes "fo" ∷ codes "obar" ∷ []

encode_buffer-encode_example : encode_buffer two_slices 4 ≡ encode (take 4 (concat two_slices))
encode_buffer-encode_example = encode_buffer-encode two_slices 4

decode-encode_example : decode (encode (codes "fooba")) ≡ string (codes "fooba")
decode-encode_example =
    decode-encode (codes "fooba")
      (omega arith, (omega arith, (omega arith, (omega arith, (omega arith, tt)))))
