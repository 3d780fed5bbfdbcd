-- ===== src/Buffer/Watermark/Callbacks.antt =====
-- When the callbacks of a buffer with watermarks are called.
use meliproxy.Buffer.Watermark.{
  WatermarkBuffer, Operation, Callback, step, fresh, check_low_watermark, check_high_watermark,
  below_low_watermark, above_high_watermark, adds, commits, drains, moves, reads, reserves, writes,
  processes, sets, add, commit, drain, move, read, reserve, write, post_process, set_watermarks,
}
use meliproxy.Shared.{
  ◌⊎◌, false, ◌≢◌, ◌∷◌, not, if_cases, ℕ, subst, ◌&&◌, ◌==◌, ◌≡◌, List, Bool, [], arith, ◌||◌, true,
  ◌≤◌, leb, refl, sym,
}

-- The calls, last first, take turns: the first is for the high watermark, and the last one is for
-- the high watermark where the flag is set.
abbrev pub Alternates : List Callback → Bool → Type 0
Alternates [] false = Unit
Alternates [] true = ⊥
Alternates (above_high_watermark ∷ cs) true = Alternates cs false
Alternates (above_high_watermark ∷ cs) false = ⊥
Alternates (below_low_watermark ∷ cs) false = Alternates cs true
Alternates (below_low_watermark ∷ cs) true = ⊥

abbrev pub IsAlternating : WatermarkBuffer → Type 0
IsAlternating w = Alternates w.called w.above_high_watermark_called

low-IsAlternating : (w : WatermarkBuffer) → IsAlternating w → IsAlternating (check_low_watermark w)
unfolding check_low_watermark
low-IsAlternating w h =
    if_cases IsAlternating
      (not w.above_high_watermark_called
        || (not (w.high_watermark == 0) && leb w.low_watermark w.length))
      _ _ (λ e. h) (λ e. subst (Alternates w.called) (set_by _ w.above_high_watermark_called e) h)
  where
    set_by : (c b : Bool) → (not b || c) ≡ false → b ≡ true
    set_by c b e = ground arith

high-IsAlternating :
    (w : WatermarkBuffer) → IsAlternating w → IsAlternating (check_high_watermark w)
unfolding check_high_watermark
high-IsAlternating w h =
    if_cases IsAlternating
      (w.above_high_watermark_called || (w.high_watermark == 0 || leb w.length w.high_watermark)) _
      _ (λ e. h) (λ e. subst (Alternates w.called) (clear_by _ w.above_high_watermark_called e) h)
  where
    clear_by : (c b : Bool) → (b || c) ≡ false → b ≡ false
    clear_by c b e = ground arith

step-IsAlternating :
    (w : WatermarkBuffer) (o : Operation) → IsAlternating w → IsAlternating (step w o)
unfolding step add commit drain move read reserve write post_process set_watermarks
step-IsAlternating w (adds n) h = high-IsAlternating (record w { length = n }) h
step-IsAlternating w (commits n) h = high-IsAlternating (record w { length = n }) h
step-IsAlternating w (drains n) h = low-IsAlternating (record w { length = n }) h
step-IsAlternating w (moves n) h = high-IsAlternating (record w { length = n }) h
step-IsAlternating w (reads n) h = high-IsAlternating (record w { length = n }) h
step-IsAlternating w (reserves n) h = high-IsAlternating (record w { length = n }) h
step-IsAlternating w (writes n) h = low-IsAlternating (record w { length = n }) h
step-IsAlternating w (processes n) h = low-IsAlternating (record w { length = n }) h
step-IsAlternating w (sets low high) h =
    let w₁ : WatermarkBuffer = record w { low_watermark = low; high_watermark = high } in
    low-IsAlternating (check_high_watermark w₁) (high-IsAlternating w₁ h)

abbrev pub run : WatermarkBuffer → List Operation → WatermarkBuffer
run w [] = w
run w (o ∷ os) = run (step w o) os

run-IsAlternating :
    (w : WatermarkBuffer) (os : List Operation) → IsAlternating w → IsAlternating (run w os)
run-IsAlternating w [] h = h
run-IsAlternating w (o ∷ os) h = run-IsAlternating (step w o) os (step-IsAlternating w o h)

-- Over every sequence of operations on a new buffer, whatever lengths and watermarks they are given,
-- the two callbacks are called in turns: the high watermark's first, and neither one twice in a row.
pub fresh-IsAlternating : (os : List Operation) → IsAlternating (run fresh os)
unfolding fresh
fresh-IsAlternating os = run-IsAlternating fresh os tt

-- The flag agrees with the watermarks: clear, the length is not above a high watermark; set, there is
-- one and the length is not below the low one.
abbrev pub IsSettled : WatermarkBuffer → Type 0
IsSettled w =
    (w.above_high_watermark_called ≡ false → (w.high_watermark ≡ 0) ⊎ (w.length ≤ w.high_watermark))
    × (w.above_high_watermark_called ≡ true → (w.high_watermark ≢ 0) × (w.low_watermark ≤ w.length))
    × (w.low_watermark ≤ w.high_watermark)

-- What an operation may do: bytes are added or taken as its name says, and the low watermark is no
-- higher than the high one.
abbrev pub Allowed : WatermarkBuffer → Operation → Type 0
Allowed w (adds n) = w.length ≤ n
Allowed w (commits n) = w.length ≤ n
Allowed w (drains n) = n ≤ w.length
Allowed w (moves n) = w.length ≤ n
Allowed w (reads n) = w.length ≤ n
Allowed w (reserves n) = w.length ≤ n
Allowed w (writes n) = n ≤ w.length
Allowed w (processes n) = n ≤ w.length
Allowed w (sets low high) = low ≤ high

-- The calls, last first, after the flag has gone from one value to another.
abbrev pub after_turn : Bool → Bool → List Callback → List Callback
after_turn false true cs = above_high_watermark ∷ cs
after_turn true false cs = below_low_watermark ∷ cs
after_turn false false cs = cs
after_turn true true cs = cs

-- From `w` to `v` a callback is called where the flag changes, and just there, and only once.
abbrev pub CallsAtTurns : WatermarkBuffer → WatermarkBuffer → Type 0
CallsAtTurns w v =
    v.called ≡ after_turn w.above_high_watermark_called v.above_high_watermark_called w.called

after_turn-same : (b : Bool) (cs : List Callback) → after_turn b b cs ≡ cs
after_turn-same true cs = refl
after_turn-same false cs = refl

high-CallsAtTurns : (w : WatermarkBuffer) → CallsAtTurns w (check_high_watermark w)
unfolding check_high_watermark
high-CallsAtTurns w =
    if_cases (CallsAtTurns w)
      (w.above_high_watermark_called || (w.high_watermark == 0 || leb w.length w.high_watermark)) _
      _ (λ e. sym (after_turn-same w.above_high_watermark_called w.called))
      (λ e.
        subst (λ b. above_high_watermark ∷ w.called ≡ after_turn b true w.called)
          (sym (clear_by _ w.above_high_watermark_called e)) refl)
  where
    clear_by : (c b : Bool) → (b || c) ≡ false → b ≡ false
    clear_by c b e = ground arith

low-CallsAtTurns : (w : WatermarkBuffer) → CallsAtTurns w (check_low_watermark w)
unfolding check_low_watermark
low-CallsAtTurns w =
    if_cases (CallsAtTurns w)
      (not w.above_high_watermark_called
        || (not (w.high_watermark == 0) && leb w.low_watermark w.length))
      _ _ (λ e. sym (after_turn-same w.above_high_watermark_called w.called))
      (λ e.
        subst (λ b. below_low_watermark ∷ w.called ≡ after_turn b false w.called)
          (sym (set_by _ w.above_high_watermark_called e)) refl)
  where
    set_by : (c b : Bool) → (not b || c) ≡ false → b ≡ true
    set_by c b e = ground arith

-- New marks cross at most one of the two, as the low one is no higher.
marked-CallsAtTurns :
    (w : WatermarkBuffer)
    → w.low_watermark ≤ w.high_watermark
    → CallsAtTurns w (check_low_watermark (check_high_watermark w))
unfolding check_high_watermark check_low_watermark
marked-CallsAtTurns w h =
    if_cases (λ (u : WatermarkBuffer). CallsAtTurns w (check_low_watermark u))
      (w.above_high_watermark_called || (w.high_watermark == 0 || leb w.length w.high_watermark)) _
      _ (λ e. low-CallsAtTurns w) (λ e. stays e (clear_by _ w.above_high_watermark_called e))
  where
    clear_by : (c b : Bool) → (b || c) ≡ false → b ≡ false
    clear_by c b e = ground arith

    raised : WatermarkBuffer
    raised = record w {
      above_high_watermark_called = true;
      called = above_high_watermark ∷ w.called;
    }

    stays :
        (w.above_high_watermark_called || (w.high_watermark == 0 || leb w.length w.high_watermark))
          ≡ false
        → w.above_high_watermark_called ≡ false
        → CallsAtTurns w (check_low_watermark raised)
    stays e f =
        if_cases (CallsAtTurns w)
          (false || (not (w.high_watermark == 0) && leb w.low_watermark w.length)) _ _
          (λ k.
            subst (λ b. above_high_watermark ∷ w.called ≡ after_turn b true w.called) (sym f) refl)
          (λ k. absurd (ground arith))

grown-IsSettled :
    (w : WatermarkBuffer) (n : ℕ)
    → w.length ≤ n
    → IsSettled w
    → IsSettled (check_high_watermark (record w { length = n }))
      × CallsAtTurns w (check_high_watermark (record w { length = n }))
unfolding check_high_watermark
grown-IsSettled w n h s = (ground arith, high-CallsAtTurns (record w { length = n }))

shrunk-IsSettled :
    (w : WatermarkBuffer) (n : ℕ)
    → n ≤ w.length
    → IsSettled w
    → IsSettled (check_low_watermark (record w { length = n }))
      × CallsAtTurns w (check_low_watermark (record w { length = n }))
unfolding check_low_watermark
shrunk-IsSettled w n h s = (ground arith, low-CallsAtTurns (record w { length = n }))

marked-IsSettled :
    (w : WatermarkBuffer) (low high : ℕ)
    → low ≤ high
    → IsSettled (set_watermarks w low high) × CallsAtTurns w (set_watermarks w low high)
unfolding set_watermarks check_low_watermark check_high_watermark
marked-IsSettled w low high h =
    (ground arith, marked-CallsAtTurns (record w { low_watermark = low; high_watermark = high }) h)

-- In a buffer that is settled every operation that is allowed leaves it settled: the flag is set as soon as the
-- length is above the high watermark, and cleared as soon as it is below the low one; and where the operation sets
-- the flag it calls the callback for the high watermark, where it clears the flag the one for the low watermark,
-- once, and else none.
pub step-IsSettled :
    (w : WatermarkBuffer) (o : Operation)
    → IsSettled w
    → Allowed w o
    → IsSettled (step w o) × CallsAtTurns w (step w o)
unfolding step add commit drain move read reserve write post_process
step-IsSettled w (adds n) s h = grown-IsSettled w n h s
step-IsSettled w (commits n) s h = grown-IsSettled w n h s
step-IsSettled w (drains n) s h = shrunk-IsSettled w n h s
step-IsSettled w (moves n) s h = grown-IsSettled w n h s
step-IsSettled w (reads n) s h = grown-IsSettled w n h s
step-IsSettled w (reserves n) s h = grown-IsSettled w n h s
step-IsSettled w (writes n) s h = shrunk-IsSettled w n h s
step-IsSettled w (processes n) s h = shrunk-IsSettled w n h s
step-IsSettled w (sets low high) s h = marked-IsSettled w low high h
