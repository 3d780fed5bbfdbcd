-- ===== src/Http/DownstreamWatermarks.antt =====
-- envoy/envoy/source/common/http/conn_manager_impl.cc: how a stream tells the router filter that the buffers towards
-- the client are too full. What the filter has been told is the list of the calls, the last one first.
pub mod Tests
use meliproxy.Shared.{
  zero, some, dec32, ◌+◌, Option, ◌^◌, ◌<◌, none, ◌∷◌, List, inc32, ℕ, [], suc, sym, refl, ◌≡◌,
  subst, arith,
}

pub data Signal : Type 0 where
  above_high below_low : Signal

-- `high_watermark_count_` and `watermark_callbacks_`
pub record StreamWatermarks : Type 0 where
  pub high_watermark_count : ℕ
  pub watermark_callbacks : Option (List Signal)

abbrev pub told : Signal → Option (List Signal) → Option (List Signal)
told signal none = none
told signal (some signals) = some (signal ∷ signals)

pub call_high_watermark_callbacks : StreamWatermarks → StreamWatermarks
call_high_watermark_callbacks s = record {
  high_watermark_count = inc32 s.high_watermark_count;
  watermark_callbacks = told above_high s.watermark_callbacks;
}

pub call_low_watermark_callbacks : StreamWatermarks → StreamWatermarks
call_low_watermark_callbacks s = record {
  high_watermark_count = dec32 s.high_watermark_count;
  watermark_callbacks = told below_low s.watermark_callbacks;
}

-- The new callbacks are told at once what there is.
abbrev pub high_signals : ℕ → List Signal
high_signals zero = []
high_signals (suc n) = above_high ∷ high_signals n

pub add_downstream_watermark_callbacks : StreamWatermarks → StreamWatermarks
add_downstream_watermark_callbacks s = record s {
  watermark_callbacks = some (high_signals s.high_watermark_count);
}

pub remove_downstream_watermark_callbacks : StreamWatermarks → StreamWatermarks
remove_downstream_watermark_callbacks s = record s { watermark_callbacks = none }

pub data Event : Type 0 where
  goes_above goes_below adds_callbacks removes_callbacks : Event

pub step : Event → StreamWatermarks → StreamWatermarks
unfolding call_high_watermark_callbacks call_low_watermark_callbacks
    add_downstream_watermark_callbacks remove_downstream_watermark_callbacks
step goes_above s = call_high_watermark_callbacks s
step goes_below s = call_low_watermark_callbacks s
step adds_callbacks s = add_downstream_watermark_callbacks s
step removes_callbacks s = remove_downstream_watermark_callbacks s

-- What the source asserts, and that the count stays in 32 bits.
abbrev pub CanHappen : Event → StreamWatermarks → Type 0
CanHappen goes_above s = s.high_watermark_count + 1 < 2 ^ 32
CanHappen goes_below s = 0 < s.high_watermark_count
CanHappen adds_callbacks s = Unit
CanHappen removes_callbacks s = Unit

-- The states of a stream, from the beginning.
pub data IsReachable : StreamWatermarks → Type 0 where
  starts : IsReachable (record { high_watermark_count = 0; watermark_callbacks = none })
  steps :
      (e : Event) (s : StreamWatermarks) → IsReachable s → CanHappen e s → IsReachable (step e s)

abbrev pub raised : Option ℕ → Option ℕ
raised none = none
raised (some n) = some (suc n)

abbrev pub lowered : Option ℕ → Option ℕ
lowered none = none
lowered (some zero) = none
lowered (some (suc n)) = some n

-- How many buffers are too full by what the callbacks were told; nothing, if at some time they were told of more
-- that are not any more than that were.
abbrev pub balance : List Signal → Option ℕ
balance [] = some 0
balance (above_high ∷ signals) = raised (balance signals)
balance (below_low ∷ signals) = lowered (balance signals)

-- What the callbacks were told stands for the count.
abbrev pub Agrees : Option (List Signal) → ℕ → Type 0
Agrees none n = Unit
Agrees (some signals) n = balance signals ≡ some n

high_signals-balance : (n : ℕ) → balance (high_signals n) ≡ some n
high_signals-balance zero = refl
high_signals-balance (suc n) = rw (high_signals-balance n) refl

told-above : (o : Option (List Signal)) (n : ℕ) → Agrees o n → Agrees (told above_high o) (suc n)
told-above none n a = tt
told-above (some signals) n a = rw a refl

told-below : (o : Option (List Signal)) (n : ℕ) → Agrees o (suc n) → Agrees (told below_low o) n
told-below none n a = tt
told-below (some signals) n a = rw a refl

step-Agrees :
    (e : Event) (s : StreamWatermarks)
    → CanHappen e s
    → s.high_watermark_count < 2 ^ 32
    → Agrees s.watermark_callbacks s.high_watermark_count
    → ((step e s).high_watermark_count < 2 ^ 32)
      × Agrees (step e s).watermark_callbacks (step e s).high_watermark_count
unfolding step call_high_watermark_callbacks call_low_watermark_callbacks
    add_downstream_watermark_callbacks remove_downstream_watermark_callbacks
step-Agrees goes_above s c b a =
    let n : ℕ = s.high_watermark_count in
    let up : inc32 n ≡ suc n = ground arith in
    (
      subst (λ x. x < 2 ^ 32) (sym up) (omega arith),
      subst (Agrees (told above_high s.watermark_callbacks)) (sym up)
          (told-above s.watermark_callbacks n a),
    )
step-Agrees goes_below s c b a = by_count s.high_watermark_count c b a
  where
    by_count :
        (n : ℕ)
        → 0 < n
        → n < 2 ^ 32
        → Agrees s.watermark_callbacks n
        → (dec32 n < 2 ^ 32) × Agrees (told below_low s.watermark_callbacks) (dec32 n)
    by_count zero p q k = absurd (omega arith)
    by_count (suc n) p q k =
        let down : dec32 (suc n) ≡ n = ground arith in
        (
          subst (λ x. x < 2 ^ 32) (sym down) (omega arith),
          subst (Agrees (told below_low s.watermark_callbacks)) (sym down)
              (told-below s.watermark_callbacks n k),
        )
step-Agrees adds_callbacks s c b a = (b, high_signals-balance s.high_watermark_count)
step-Agrees removes_callbacks s c b a = (b, tt)

-- At any time of a stream whose count stays in 32 bits, and that goes below no more often than above, the
-- callbacks that are there have been told of as many buffers too full as the count says, told at no time of more
-- that are not any more than that were, whenever they were added; and the count does not wrap.
pub callbacks-Agree :
    (s : StreamWatermarks)
    → IsReachable s
    → (s.high_watermark_count < 2 ^ 32) × Agrees s.watermark_callbacks s.high_watermark_count
callbacks-Agree _ starts = (ground arith, tt)
callbacks-Agree _ (steps e s r c) = let k = callbacks-Agree s r in step-Agrees e s c k.0 k.1
