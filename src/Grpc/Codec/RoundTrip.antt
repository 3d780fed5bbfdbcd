-- ===== src/Grpc/Codec/RoundTrip.antt =====
-- Frames written by `newFrame` and read back.
use meliproxy.Grpc.Codec.{
  fh_flag, Frame, Decoder, switch, len_3, join, new_frame, block, data_round, close, decoded,
  decode, fresh,
}
use meliproxy.Grpc.Codec.Reference.{byte, feed, in_data, block_lem, feed_block, concat, decode-feed}
use meliproxy.Shared.{
  ℕ, ◌<◌, List, length, ◌^◌, ◌++◌, Option, none, ◌/◌, ◌∷◌, ◌%◌, some, ◌*◌, ◌≡◌, or_join, arith,
  zero, bit_or, suc, [], ◌∙◌, take-length-append, length-append, drop-length-append, All, ap,
  ==-true, ==-false, append-nil, map, refl, append_assoc,
}

-- The length that the four bytes of a header spell.
join_bytes :
    (n : ℕ)
    → n < 2 ^ 32
    → join
        (join (join (n / 2 ^ 24 % 256 * 2 ^ 24 % 2 ^ 32) (n / 2 ^ 16 % 256) 16) (n / 2 ^ 8 % 256) 8)
        (n % 256)
        0
      ≡ n
join_bytes n h =
    let a : ℕ = n / 2 ^ 24 in
    let b : ℕ = n / 2 ^ 16 % 256 in
    let c : ℕ = n / 2 ^ 8 % 256 in
    let ea : a % 256 * 2 ^ 24 % 2 ^ 32 ≡ a * 2 ^ 24 = omega arith in
    let e1 : bit_or (a * 2 ^ 24) (b * 2 ^ 16 % 2 ^ 32) ≡ n / 2 ^ 16 * 2 ^ 16 =
      omega (arith, or_join 24 a (b * 2 ^ 16 % 2 ^ 32) (omega arith)) in
    let e2 : bit_or (n / 2 ^ 16 * 2 ^ 16) (c * 2 ^ 8 % 2 ^ 32) ≡ n / 2 ^ 8 * 2 ^ 8 =
      omega (arith, or_join 16 (n / 2 ^ 16) (c * 2 ^ 8 % 2 ^ 32) (omega arith)) in
    let e3 : bit_or (n / 2 ^ 8 * 2 ^ 8) (n % 256 * 2 ^ 0 % 2 ^ 32) ≡ n =
      omega (arith, or_join 8 (n / 2 ^ 8) (n % 256 * 2 ^ 0 % 2 ^ 32) (omega arith)) in
    rw (ea, e1, e2, e3)

-- A message as its sender has it, its bytes on the wire, and the frame that is read.
pub record Message : Type 0 where
  pub flags : ℕ
  pub payload : List ℕ

abbrev pub CanSend : Message → Type 0
CanSend m = (m.flags < 2) × (length m.payload < 2 ^ 32)

-- Without data the pointer stays null.
abbrev pub pointer : List ℕ → Option (List ℕ)
pointer [] = none
pointer (x ∷ xs) = some (x ∷ xs)

abbrev pub received : Message → Frame
received m = record { flags = m.flags; len = length m.payload; body = pointer m.payload }

feed_header :
    (flags n : ℕ) (out : List Frame) (f : Frame) (rest : List ℕ)
    → flags < 2
    → n < 2 ^ 32
    → feed (record { state = fh_flag; frame = f }) out (new_frame flags n ++ rest)
      ≡ feed
          (len_3 out (record f { flags = flags; len = n })).0
          (len_3 out (record f { flags = flags; len = n })).1
          rest
unfolding feed byte switch new_frame
feed_header zero n out f rest h k = rw (join_bytes n k)
feed_header (suc zero) n out f rest h k = rw (join_bytes n k)
feed_header (suc (suc m)) n out f rest h k = absurd (omega arith)

-- What a message leaves in the decoder's `frame_`.
abbrev leave : ℕ → List ℕ → Frame
leave flags [] = record { flags = flags; len = 0; body = none }
leave flags (x ∷ xs) = record { flags = 0; len = 0; body = none }

feed_payload :
    (xs rest : List ℕ) (x flags : ℕ) (out : List Frame)
    → length (x ∷ xs) < 2 ^ 32
    → let f : Frame = record { flags = flags; len = length (x ∷ xs); body = none } in
      feed (in_data f []) out (x ∷ (xs ++ rest))
      ≡ feed
          (record { state = fh_flag; frame = leave 0 (x ∷ xs) })
          (out ++ (record f { body = some (x ∷ xs) } ∷ []))
          rest
feed_payload xs rest x flags out h =
    let f : Frame = record { flags = flags; len = length (x ∷ xs); body = none } in
    let n : block f.len 0 (length (x ∷ (xs ++ rest))) ≡ suc (length xs) =
      omega (arith, block_lem f.len 0 (length (x ∷ (xs ++ rest))), length-append xs rest) in
    feed_block (xs ++ rest) [] out f x (omega arith) h
    ∙ unfold data_round in
      rw (n, take-length-append xs rest, drop-length-append xs rest)
        (unfold close in rw (==-true (suc (length xs)) (suc (length xs)) refl))

feed_message :
    (flags : ℕ) (payload rest : List ℕ) (out : List Frame) (f : Frame)
    → f.body ≡ none
    → flags < 2
    → length payload < 2 ^ 32
    → feed
        (record { state = fh_flag; frame = f })
        out
        (new_frame flags (length payload) ++ (payload ++ rest))
      ≡ feed
          (record { state = fh_flag; frame = leave flags payload })
          (out ++ (record { flags = flags; len = length payload; body = pointer payload } ∷ []))
          rest
feed_message flags [] rest out f e h k = feed_header flags 0 out f rest h k ∙ unfold len_3 in rw e
feed_message flags (x ∷ xs) rest out f e h k =
    feed_header flags (length (x ∷ xs)) out f (x ∷ (xs ++ rest)) h k
    ∙ unfold len_3 in
      rw (==-false (suc (length xs)) 0 (λ z. absurd (omega arith)))
        (feed_payload xs rest x flags out k)

abbrev pub wires : List Message → List ℕ
wires [] = []
wires (m ∷ ms) = new_frame m.flags (length m.payload) ++ (m.payload ++ wires ms)

abbrev last_frame : Frame → List Message → Frame
last_frame f [] = f
last_frame f (m ∷ ms) = last_frame (leave m.flags m.payload) ms

leave_null : (flags : ℕ) (payload : List ℕ) → (leave flags payload).body ≡ none
leave_null flags [] = refl
leave_null flags (x ∷ xs) = refl

feed_messages :
    (ms : List Message) (out : List Frame) (f : Frame)
    → f.body ≡ none
    → All CanSend ms
    → feed (record { state = fh_flag; frame = f }) out (wires ms)
      ≡ decoded (record { state = fh_flag; frame = last_frame f ms }) (out ++ map received ms)
feed_messages [] out f e h = unfold feed in rw append-nil
feed_messages (m ∷ ms) out f e ((h, k), hs) =
    feed_message m.flags m.payload (wires ms) out f e h k
    ∙ feed_messages ms (out ++ (received m ∷ [])) (leave m.flags m.payload)
        (leave_null m.flags m.payload) hs
    ∙ ap (decoded (record { state = fh_flag; frame = last_frame (leave m.flags m.payload) ms }))
        (append_assoc out (received m ∷ []) (map received ms))

-- Messages with flag 0 or 1 and less than 2^32 bytes, each sent as `newFrame`'s header and its
-- payload, one after the other and cut into slices in any way, are decoded by a new decoder as those
-- messages, in order, and the decoder then waits for the next frame.
pub decode-new_frame :
    (ms : List Message) (slices : List (List ℕ))
    → All CanSend ms
    → concat slices ≡ wires ms
    → (d : Decoder) × (d.state ≡ fh_flag) × (decode fresh [] slices ≡ decoded d (map received ms))
decode-new_frame ms slices h e = (
  record { state = fh_flag; frame = last_frame fresh.frame ms },
  refl,
  decode-feed slices fresh [] (unfold fresh in (refl, omega arith))
      ∙ rw e (unfold fresh in feed_messages ms [] _ refl h),
)
