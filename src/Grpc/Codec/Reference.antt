-- ===== src/Grpc/Codec/Reference.antt =====
-- The decoder that takes one byte at a time, and the proof that the slice loop agrees with it.
use meliproxy.Shared.{
  ℕ, zero, suc, ◌+◌, ◌-◌, ◌≤◌, ◌<◌, ◌^◌, ◌≡◌, refl, ◌∙◌, sym, ap, List, [], ◌∷◌, ◌++◌, none, some,
  arith, length, length-append, append_assoc, or_bound, ◌==◌, Bool-cases, inl, inr, take,
  length-take, ◌*◌, length-drop, bit_and, ◌%◌, min, dec_lt, append-nil,
}
use meliproxy.Grpc.Codec.{
  State, fh_flag, fh_len_0, fh_len_1, fh_len_2, fh_len_3, frame_data, Frame, Decoder, Outcome,
  decoded, refused, null_data, stuck, close, block, data_round, switch, goes, bad_flags, null,
  decode_slice, decode, len_3, join, Round, Switch,
}

-- A round on a slice of one byte.
abbrev single : List Frame → Decoder → Switch → Outcome
single out d (goes r) = decoded r.0.0 r.0.1
single out d bad_flags = refused d out
single out d null = null_data

-- One byte: the header states are the source's, and DATA appends the byte.
unfoldable pub byte : List Frame → Frame → State → ℕ → Outcome
byte out f frame_data c = elim f.body [
  | none ↦ null_data
  | some b ↦ let p = close out f (b ++ (c ∷ [])) in decoded p.0 p.1
]
byte out f s c = single out (record { state = s; frame = f }) (switch out f s c [])

unfoldable pub feed : Decoder → List Frame → List ℕ → Outcome
feed d out [] = decoded d out
feed d out (c ∷ cs) = elim (byte out d.frame d.state c) [
  | decoded d' out' ↦ feed d' out' cs
  | other ↦ other
]

-- Between two bytes the pointer `data_` is set exactly in DATA, where some of the data is missing.
abbrev pub Holds : State → Frame → Type 0
Holds frame_data f = (b : List ℕ) × (f.body ≡ some b) × (length b < f.len) × (f.len < 2 ^ 32)
Holds s f = (f.body ≡ none) × (f.len < 2 ^ 32)

abbrev pub IsValid : Decoder → Type 0
IsValid d = Holds d.state d.frame

close-IsValid :
    (out : List Frame) (f : Frame) (b : List ℕ)
    → length b ≤ f.len
    → f.len < 2 ^ 32
    → IsValid (close out f b).0
unfolding close
close-IsValid out f b h k = elim (Bool-cases (f.len == length b)) [
  | inl e ↦ rw (e, close) (refl, omega arith)
  | inr e ↦ rw (e, close) (b, refl, ground arith, k)
]

pub block_lem : (len have n : ℕ) → have < len → len < 2 ^ 32 → block len have n ≡ min n (len - have)
unfolding block
block_lem len have n h k = ground arith

len_3-IsValid :
    (out : List Frame) (f : Frame) → f.body ≡ none → f.len < 2 ^ 32 → IsValid (len_3 out f).0
unfolding len_3
len_3-IsValid out f h k = elim (Bool-cases (f.len == 0)) [
  | inl e ↦ rw (e, len_3) (refl, k)
  | inr e ↦ rw (e, len_3) ([], refl, ground arith, k)
]

join-lt : (n c k : ℕ) → n < 2 ^ 32 → join n c k < 2 ^ 32
join-lt n c k h = or_bound 32 n (c * 2 ^ k % 2 ^ 32) h (omega arith)

data_round-IsValid :
    (out : List Frame) (f : Frame) (b mem : List ℕ)
    → length b < f.len
    → f.len < 2 ^ 32
    → IsValid (data_round out f b mem).0.0
unfolding data_round
data_round-IsValid out f b mem h k =
    let n = block f.len (length b) (length mem) in
    close-IsValid out f (b ++ take n mem)
      (omega (
        arith,
        length-append b (take n mem),
        length-take n mem,
        block_lem f.len (length b) (length mem) h k,
      ))
      k

-- What a round of the switch owes: a valid decoder, and a byte taken.
abbrev pub Progress : ℕ → Switch → Type 0
Progress n (goes r) = IsValid r.0.0 × (length r.1 < n)
Progress n bad_flags = Unit
Progress n null = ⊥

data_round-Progress :
    (out : List Frame) (f : Frame) (b : List ℕ) (c : ℕ) (cs : List ℕ)
    → length b < f.len
    → f.len < 2 ^ 32
    → Progress (suc (length cs)) (goes (data_round out f b (c ∷ cs)))
unfolding data_round
data_round-Progress out f b c cs h k = (
  data_round-IsValid out f b (c ∷ cs) h k,
  unfold data_round in
      omega (
        arith,
        length-drop (block f.len (length b) (suc (length cs))) (c ∷ cs),
        block_lem f.len (length b) (suc (length cs)) h k,
      ),
)

switch-Progress :
    (out : List Frame) (f : Frame) (s : State) (c : ℕ) (cs : List ℕ)
    → Holds s f
    → Progress (suc (length cs)) (switch out f s c cs)
unfolding switch
switch-Progress out f fh_flag c cs h = elim (Bool-cases (bit_and c (2 ^ 32 - 2) == 0)) [
  | inl e ↦ rw (e, switch) (h, omega arith)
  | inr e ↦ rw (e, switch) tt
]
switch-Progress out f fh_len_0 c cs (h, k) = ((h, omega arith), omega arith)
switch-Progress out f fh_len_1 c cs (h, k) = ((h, join-lt f.len c 16 k), omega arith)
switch-Progress out f fh_len_2 c cs (h, k) = ((h, join-lt f.len c 8 k), omega arith)
switch-Progress out f fh_len_3 c cs (h, k) =
    (len_3-IsValid out (record f { len = join f.len c 0 }) h (join-lt f.len c 0 k), omega arith)
switch-Progress out f frame_data c cs (b, eb, h, k) =
    rw (eb, switch) (data_round-Progress out f b c cs h k)

-- Once a byte of the block is taken, the rest of the block is the block of the rest.
data_round_step :
    (out : List Frame) (f : Frame) (b xs : List ℕ) (c x : ℕ)
    → length b + 1 < f.len
    → f.len < 2 ^ 32
    → data_round out f b (c ∷ x ∷ xs) ≡ data_round out f (b ++ (c ∷ [])) (x ∷ xs)
unfolding data_round
data_round_step out f b xs c x h k =
    let m : ℕ = length xs in
    let e : block f.len (length b) (suc (suc m)) ≡ suc (block f.len (length b + 1) (suc m)) =
      unfold block in ground arith in
    let g : length (b ++ (c ∷ [])) ≡ length b + 1 = length-append b (c ∷ []) in
    rw (e, g, append_assoc)

-- The byte that completes the data ends the block.
feed_last :
    (mem b : List ℕ) (out : List Frame) (f : Frame) (c : ℕ)
    → length b + 1 ≡ f.len
    → f.len < 2 ^ 32
    → feed (record { state = frame_data; frame = record f { body = some b } }) out (c ∷ mem)
      ≡ feed
          (data_round out f b (c ∷ mem)).0.0
          (data_round out f b (c ∷ mem)).0.1
          (data_round out f b (c ∷ mem)).1
unfolding feed byte data_round close
feed_last mem b out f c h k =
    let one : block f.len (length b) (suc (length mem)) ≡ 1 = unfold block in ground arith in rw one

close_part :
    (out : List Frame) (f : Frame) (b : List ℕ)
    → length b < f.len
    → close out f b ≡ (record { state = frame_data; frame = record f { body = some b } }, out)
unfolding close
close_part out f b h = elim (Bool-cases (f.len == length b)) [
  | inl e ↦ absurd (ground arith)
  | inr e ↦ rw (e, close)
]

abbrev pub feed_round : Round → Outcome
feed_round r = feed r.0.0 r.0.1 r.1

abbrev pub in_data : Frame → List ℕ → Decoder
in_data f b = record { state = frame_data; frame = record f { body = some b } }

feed_data :
    (mem b : List ℕ) (out : List Frame) (f : Frame) (c : ℕ)
    → feed (in_data f b) out (c ∷ mem) ≡ feed_round (close out f (b ++ (c ∷ [])), mem)
unfolding feed byte close
feed_data mem b out f c = refl

-- Taking a block of data is taking its bytes one by one.
pub feed_block :
    (mem b : List ℕ) (out : List Frame) (f : Frame) (c : ℕ)
    → length b < f.len
    → f.len < 2 ^ 32
    → feed (in_data f b) out (c ∷ mem) ≡ feed_round (data_round out f b (c ∷ mem))
feed_block [] b out f c h k =
    let one : block f.len (length b) 1 ≡ 1 = omega (arith, block_lem f.len (length b) 1 h k) in
    feed_data [] b out f c ∙ unfold data_round in rw one
feed_block (x ∷ xs) b out f c h k = elim (dec_lt (length b + 1) f.len) [
  | no e ↦ feed_last (x ∷ xs) b out f c (omega arith) k
  | yes e ↦
      let b' : List ℕ = b ++ (c ∷ []) in
      let g : length b' < f.len = omega (arith, length-append b (c ∷ [])) in
      feed_data (x ∷ xs) b out f c
      ∙ ap (λ p. feed_round (p, x ∷ xs)) (close_part out f b' g)
      ∙ feed_block xs b' out f x g k
      ∙ sym (ap feed_round (data_round_step out f b xs c x e k))
]

-- On a valid decoder, one step of the reference is a round of the switch, fed on.
feed-switch :
    (out : List Frame) (f : Frame) (s : State) (c : ℕ) (cs : List ℕ)
    → Holds s f
    → feed (record { state = s; frame = f }) out (c ∷ cs) ≡ elim (switch out f s c cs) [
      | goes r ↦ feed_round r
      | bad_flags ↦ refused (record { state = s; frame = f }) out
      | null ↦ null_data
    ]
unfolding feed byte switch
feed-switch out f fh_flag c cs h = elim (Bool-cases (bit_and c (2 ^ 32 - 2) == 0)) [
  | inl e ↦ rw (e, switch, feed, byte)
  | inr e ↦ rw (e, switch, feed, byte)
]
feed-switch out f fh_len_0 c cs h = refl
feed-switch out f fh_len_1 c cs h = refl
feed-switch out f fh_len_2 c cs h = refl
feed-switch out f fh_len_3 c cs h = refl
feed-switch out f frame_data c cs (b, eb, h, k) = rw (eb, switch) (feed_block cs b out f c h k)

abbrev ends : List Frame → Decoder → Switch → Outcome
ends out d (goes r) = feed_round r
ends out d bad_flags = refused d out
ends out d null = null_data

-- With a round for each byte at most, the slice loop is the reference.
pub decode_slice-feed :
    (fuel : ℕ) (cs : List ℕ) (d : Decoder) (out : List Frame)
    → IsValid d
    → length cs ≤ fuel
    → decode_slice fuel d out cs ≡ feed d out cs
unfolding decode_slice feed
decode_slice-feed fuel [] d out v h = refl
decode_slice-feed zero (c ∷ cs) d out v h = absurd (omega arith)
decode_slice-feed (suc fuel) (c ∷ cs) d out v h =
    go (switch out d.frame d.state c cs) (switch-Progress out d.frame d.state c cs v)
      (feed-switch out d.frame d.state c cs v)
      (λ r w l. decode_slice-feed fuel r.1 r.0.0 r.0.1 w (omega arith))
  where
    go :
        (s : Switch)
        → Progress (suc (length cs)) s
        → feed d out (c ∷ cs) ≡ ends out d s
        → ((r : Round)
            → IsValid r.0.0
            → length r.1 < suc (length cs)
            → decode_slice fuel r.0.0 r.0.1 r.1 ≡ feed_round r)
        → elim s [
          | goes ((d', out'), rest) ↦ decode_slice fuel d' out' rest
          | bad_flags ↦ refused d out
          | null ↦ null_data
        ]
          ≡ feed d out (c ∷ cs)
    go (goes r) (w, l) e rec = rec r w l ∙ sym e
    go bad_flags w e rec = sym e
    go null w e rec = elim w [ ]

-- The decoder stays valid, and no call reads through the null pointer or fails to end.
abbrev pub Ends : Outcome → Type 0
Ends (decoded d out) = IsValid d
Ends (refused d out) = IsValid d
Ends null_data = ⊥
Ends stuck = ⊥

abbrev then_feed : Outcome → List ℕ → Outcome
then_feed (decoded d out) cs = feed d out cs
then_feed (refused d out) cs = refused d out
then_feed null_data cs = null_data
then_feed stuck cs = stuck

feed-append :
    (xs ys : List ℕ) (d : Decoder) (out : List Frame)
    → feed d out (xs ++ ys) ≡ then_feed (feed d out xs) ys
unfolding feed
feed-append [] ys d out = refl
feed-append (x ∷ xs) ys d out =
    go (byte out d.frame d.state x) (λ d' out'. feed-append xs ys d' out')
  where
    go :
        (o : Outcome)
        → ((d' : Decoder) (out' : List Frame)
            → feed d' out' (xs ++ ys) ≡ then_feed (feed d' out' xs) ys)
        → elim o [ decoded d' out' ↦ feed d' out' (xs ++ ys) | other ↦ other ]
          ≡ then_feed (elim o [ decoded d' out' ↦ feed d' out' xs | other ↦ other ]) ys
    go (decoded d' out') rec = rec d' out'
    go (refused d' out') rec = refl
    go null_data rec = refl
    go stuck rec = refl

single-Ends :
    (out : List Frame) (d : Decoder) (n : ℕ) (s : Switch)
    → IsValid d
    → Progress n s
    → Ends (single out d s)
single-Ends out d n (goes r) v p = p.0
single-Ends out d n bad_flags v p = v
single-Ends out d n null v p = p

byte-Ends : (out : List Frame) (f : Frame) (s : State) (c : ℕ) → Holds s f → Ends (byte out f s c)
unfolding byte
byte-Ends out f frame_data c (b, e, h, k) =
    rw (e, byte) (close-IsValid out f (b ++ (c ∷ [])) (omega (arith, length-append b (c ∷ []))) k)
byte-Ends out f s c h =
    single-Ends out (record { state = s; frame = f }) 1 (switch out f s c []) h
      (switch-Progress out f s c [] h)

feed-Ends : (cs : List ℕ) (d : Decoder) (out : List Frame) → IsValid d → Ends (feed d out cs)
unfolding feed
feed-Ends [] d out v = v
feed-Ends (c ∷ cs) d out v =
    go (byte out d.frame d.state c) (byte-Ends out d.frame d.state c v)
      (λ d' out' w. feed-Ends cs d' out' w)
  where
    go :
        (o : Outcome)
        → Ends o
        → ((d' : Decoder) (out' : List Frame) → IsValid d' → Ends (feed d' out' cs))
        → Ends (elim o [ decoded d' out' ↦ feed d' out' cs | other ↦ other ])
    go (decoded d' out') w rec = rec d' out' w
    go (refused d' out') w rec = w
    go null_data w rec = w
    go stuck w rec = w

abbrev pub concat : List (List ℕ) → List ℕ
concat [] = []
concat (xs ∷ xss) = xs ++ concat xss

-- Over the slices of a buffer the decoder does what the reference does on the bytes.
pub decode-feed :
    (slices : List (List ℕ)) (d : Decoder) (out : List Frame)
    → IsValid d
    → decode d out slices ≡ feed d out (concat slices)
unfolding decode
decode-feed [] d out v = unfold feed in refl
decode-feed (xs ∷ xss) d out v =
    rw
      (
        feed-append xs (concat xss) d out,
        decode_slice-feed (length xs) xs d out v (omega arith),
        decode,
      )
      (go (feed d out xs) (feed-Ends xs d out v) (λ d' out' w. decode-feed xss d' out' w))
  where
    go :
        (o : Outcome)
        → Ends o
        → ((d' : Decoder) (out' : List Frame)
            → IsValid d'
            → decode d' out' xss ≡ feed d' out' (concat xss))
        → elim o [
          | decoded d' out' ↦ decode d' out' xss
          | refused d' out' ↦ refused d' out'
          | null_data ↦ null_data
          | stuck ↦ stuck
        ]
          ≡ then_feed o (concat xss)
    go (decoded d' out') w rec = rec d' out' w
    go (refused d' out') w rec = refl
    go null_data w rec = elim w [ ]
    go stuck w rec = elim w [ ]

-- However a buffer is cut into slices, `decode` gives the same result as on its bytes in one slice,
-- from every decoder whose pointer `data_` is set exactly in DATA, with some of the data missing.
pub decode-concat :
    (slices : List (List ℕ)) (d : Decoder) (out : List Frame)
    → IsValid d
    → decode d out slices ≡ decode d out (concat slices ∷ [])
decode-concat slices d out v =
    decode-feed slices d out v
    ∙ ap (feed d out) (sym (append-nil (concat slices)))
    ∙ sym (decode-feed (concat slices ∷ []) d out v)

-- From such a decoder `decode` ends on every buffer without reading through the null pointer, and
-- leaves a decoder of that kind, whether it returns true or false.
pub decode-Ends :
    (slices : List (List ℕ)) (d : Decoder) (out : List Frame)
    → IsValid d
    → Ends (decode d out slices)
decode-Ends slices d out v = rw (decode-feed slices d out v) (feed-Ends (concat slices) d out v)
