-- ===== src/Grpc/Codec/Tests.antt =====
-- Runs of the gRPC codec, and its theorems at concrete inputs.
use meliproxy.Grpc.Codec.{
  fh_flag, frame_data, Decoder, decoded, refused, decode, fresh, decode_slice, switch, new_frame,
}
use meliproxy.Grpc.Codec.Reference.{decode-concat, decode-Ends, Ends}
use meliproxy.Grpc.Codec.RoundTrip.{Message, received, decode-new_frame}
use meliproxy.Shared.{List, ℕ, some, arith, ◌∷◌, map, refl, [], ◌≡◌}

abbrev two_messages : List Message
two_messages =
    record { flags = 0; payload = 7 ∷ 8 ∷ 9 ∷ [] } ∷ record { flags = 1; payload = [] } ∷ []

abbrev cut : List (List ℕ)
cut = (0 ∷ 0 ∷ 0 ∷ []) ∷ (0 ∷ 3 ∷ 7 ∷ []) ∷ [] ∷ (8 ∷ 9 ∷ 1 ∷ 0 ∷ 0 ∷ 0 ∷ 0 ∷ []) ∷ []

-- A flag other than 0 and 1 is refused.
decode_bad_flag : decode fresh [] ((2 ∷ 0 ∷ []) ∷ []) ≡ refused fresh []
unfolding decode decode_slice switch fresh
decode_bad_flag = refl

abbrev half_read : Decoder
half_read = record {
  state = frame_data;
  frame = record { flags = 0; len = 3; body = some (7 ∷ []) };
}

decode-concat_example :
    decode half_read [] ((8 ∷ []) ∷ (9 ∷ 1 ∷ []) ∷ []) ≡ decode half_read [] ((8 ∷ 9 ∷ 1 ∷ []) ∷ [])
decode-concat_example =
    decode-concat ((8 ∷ []) ∷ (9 ∷ 1 ∷ []) ∷ []) half_read []
      (7 ∷ [], refl, omega arith, omega arith)

decode-Ends_example : Ends (decode half_read [] ((8 ∷ []) ∷ (9 ∷ 1 ∷ []) ∷ []))
decode-Ends_example =
    decode-Ends ((8 ∷ []) ∷ (9 ∷ 1 ∷ []) ∷ []) half_read [] (7 ∷ [], refl, omega arith, omega arith)

decode-new_frame_example :
    (d : Decoder) × (d.state ≡ fh_flag)
    × (decode fresh [] cut ≡ decoded d (map received two_messages))
unfolding new_frame
decode-new_frame_example = decode-new_frame two_messages cut (omega arith) refl
