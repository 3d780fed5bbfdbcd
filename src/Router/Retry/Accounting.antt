-- ===== src/Router/Retry/Accounting.antt =====
-- A retry that is on holds one unit of the cluster's retry resource, and takes one of the retries.
use meliproxy.Upstream.Resource
use meliproxy.Runtime.{get_integer, feature_enabled}
use meliproxy.Common.StringUtil.{Strtoul}
use meliproxy.Router.Retry.{
  Retry, World, ResponseHeaders, StreamResetReason, Answer, answered, thrown, fault, retry,
  reset_retry, enable_backoff_timer, retry_or_not, retry_again, should_retry, would_retry,
  multiplier,
}
use meliproxy.Shared.{
  ◌^◌, ℕ, ◌+◌, arith, false, true, inr, Option, ◌≡◌, ◌%◌, none, ◌<◌, Bool-cases, Bool, ◌*◌,
  if◌then◌else◌, inc32, Bytes, inl, some, ◌==◌, refl, dec32, ◌≤◌, ◌≢◌, inc64, ne_of_==_false,
  if_cases, sym, subst,
}

-- The units in use are those of other requests, and one for this request while its retry is on.
abbrev pub HoldsOne : ℕ → Retry → World → Type 0
HoldsOne others s w = w.retries.current ≡ others + (if s.callback then 1 else 0)

-- What a call leaves: the units are accounted for, the retry is on exactly after the answer `retry`
-- (or the fault on the way to it), and each such answer has taken one of the remaining retries.
abbrev pub remaining : Answer × Retry × World → ℕ
remaining r = r.1.retries_remaining

abbrev pub spent : Answer → ℕ
spent (answered retry) = 1
spent a = 0

abbrev is_on : Answer → Bool
is_on (answered retry) = true
is_on fault = true
is_on a = false

pub record Accounted (others before : ℕ) (r : Answer × Retry × World) : Type 0 where
  pub holds : HoldsOne others r.1 r.2
  pub on : r.0 ≢ thrown → r.1.callback ≡ is_on r.0
  pub taken : remaining r + spent r.0 ≤ before

Accounted-mono :
    (others n m : ℕ) (r : Answer × Retry × World)
    → Accounted others n r
    → n ≤ m
    → Accounted others m r
Accounted-mono others n m r a h = record {
  holds = a.holds;
  on = a.on;
  taken = omega (arith, a.taken);
}

reset_retry-frees :
    (others : ℕ) (s : Retry) (w : World)
    → others + 1 < 2 ^ 64
    → HoldsOne others s w
    → ((reset_retry s w).1.retries.current ≡ others)
      × ((reset_retry s w).0.callback ≡ false)
      × ((reset_retry s w).0.retries_remaining ≡ s.retries_remaining)
unfolding reset_retry Resource.dec
reset_retry-frees others s w h k = ground arith

enable_backoff_timer-Accounted :
    (others : ℕ) (s : Retry) (w : World)
    → HoldsOne others s w
    → s.callback ≡ true
    → Accounted others (s.retries_remaining + 1) (enable_backoff_timer s w)
unfolding enable_backoff_timer
enable_backoff_timer-Accounted others s w h c =
    elim (Bool-cases (
      get_integer w.runtime "upstream.base_retry_backoff_ms" 25
        * multiplier (inc32 s.current_retry)
        % 2 ^ 64
      == 0)) [
        | inl e ↦
            rw (e, enable_backoff_timer) (record { holds = h; on = λ n. c; taken = omega arith })
        | inr e ↦
            rw (e, enable_backoff_timer) (record { holds = h; on = λ n. c; taken = omega arith })
      ]

module _ (strtoul : Bytes → ℕ → Strtoul) where
  retry_or_not-Accounted :
      (others : ℕ) (s : Retry) (w : World) (would : Option Bool)
      → others + 1 < 2 ^ 64
      → w.retries.current ≡ others
      → s.callback ≡ false
      → Accounted others (s.retries_remaining + 1) (retry_or_not strtoul s w would)
  unfolding retry_or_not
  retry_or_not-Accounted others s w none h k e = record {
    holds = ground arith;
    on = λ n. absurd (n refl);
    taken = omega arith;
  }
  retry_or_not-Accounted others s w (some false) h k e = record {
    holds = ground arith;
    on = λ n. e;
    taken = omega arith;
  }
  retry_or_not-Accounted others s w (some true) h k e =
      elim (Bool-cases (Resource.can_create w.runtime w.retries)) [
        | inr c ↦
            rw (c, retry_or_not) (record { holds = ground arith; on = λ n. e; taken = omega arith })
        | inl c ↦
            elim (Bool-cases (feature_enabled w.runtime w.generator "upstream.use_retry" 100).0) [
              | inr f ↦
                  rw (c, f, retry_or_not)
                    (record { holds = ground arith; on = λ n. e; taken = omega arith })
              | inl f ↦
                  rw (c, f, retry_or_not)
                    (enable_backoff_timer-Accounted others (record s { callback = true }) _
                      (unfold Resource.inc in omega arith) refl)
            ]
      ]

  retry_again-Accounted :
      (others : ℕ) (s : Retry) (w : World) (headers : Option ResponseHeaders)
      (reason : Option StreamResetReason)
      → others + 1 < 2 ^ 64
      → s.retries_remaining < 2 ^ 32
      → HoldsOne others s w
      → Accounted others s.retries_remaining (retry_again strtoul s w headers reason)
  unfolding retry_again
  retry_again-Accounted others s w headers reason h b k =
      let r = reset_retry-frees others s w h k in
      let s' : Retry = (reset_retry s w).0 in
      elim (Bool-cases (s'.retries_remaining == 0)) [
        | inl e ↦
            rw (e, retry_again)
              (record { holds = ground (arith, r); on = λ n. r.1; taken = omega (arith, r.2) })
        | inr e ↦
            rw (e, retry_again)
              (Accounted-mono others (dec32 s'.retries_remaining + 1) s.retries_remaining
                (retry_or_not strtoul (record s' { retries_remaining = dec32 s'.retries_remaining })
                  (reset_retry s w).1 (would_retry strtoul s'.retry_on headers reason))
                (retry_or_not-Accounted others
                  (record s' { retries_remaining = dec32 s'.retries_remaining }) (reset_retry s w).1
                  (would_retry strtoul s'.retry_on headers reason) h r.0 r.1)
                (omega (arith, r.2, ne_of_==_false s'.retries_remaining 0 e)))
      ]

  -- While the units of other requests are below 2^64 - 1, `shouldRetry` keeps this request's share of
  -- the retry resource: one unit if its retry is on, none otherwise. Unless an exception is thrown, the
  -- retry is on exactly if the answer is Yes or the backoff faults, and a Yes takes one of the
  -- remaining retries, which never grow.
  should_retry-Accounted :
      (others : ℕ) (s : Retry) (w : World) (headers : Option ResponseHeaders)
      (reason : Option StreamResetReason)
      → others + 1 < 2 ^ 64
      → s.retries_remaining < 2 ^ 32
      → HoldsOne others s w
      → Accounted others s.retries_remaining (should_retry strtoul s w headers reason)
  unfolding should_retry
  should_retry-Accounted others s w headers reason h b k =
      if_cases (Accounted others s.retries_remaining) s.callback _ _
        (λ e. would (would_retry strtoul s.retry_on headers reason))
        (λ e. retry_again-Accounted others s w headers reason h b k)
    where
      would :
          (o : Option Bool)
          → Accounted others s.retries_remaining (elim o [
            | none ↦ (thrown, s, w)
            | some true ↦ retry_again strtoul s w headers reason
            | some false ↦
                retry_again strtoul s
                  (record w { upstream_rq_retry_success = inc64 w.upstream_rq_retry_success })
                  headers
                  reason
          ])
      would none = record { holds = k; on = λ n. absurd (n refl); taken = omega arith }
      would (some true) = retry_again-Accounted others s w headers reason h b k
      would (some false) =
          retry_again-Accounted others s
            (record w { upstream_rq_retry_success = inc64 w.upstream_rq_retry_success }) headers
            reason h b k

  -- What can happen to a retry state that began as `s₀`: calls of `shouldRetry`, each with what it
  -- spends, and changes of the world by others, which leave this request's unit alone.
  pub data History (s₀ : Retry) : ℕ → Retry → World → Type 0 where
    begin :
        (w : World) (others : ℕ) → others + 1 < 2 ^ 64 → HoldsOne others s₀ w → History s₀ 0 s₀ w
    change :
        {n : ℕ} {s : Retry} {w : World} (v : World) (others : ℕ)
        → History s₀ n s w
        → others + 1 < 2 ^ 64
        → HoldsOne others s v
        → History s₀ n s v
    ask :
        {n : ℕ} {s : Retry} {w : World} (headers : Option ResponseHeaders)
        (reason : Option StreamResetReason) (r : Answer × Retry × World)
        → History s₀ n s w
        → r ≡ should_retry strtoul s w headers reason
        → History s₀ (n + spent r.0) r.1 r.2

  pub Kept : Retry → ℕ → Retry → World → Type 0
  Kept s₀ n s w =
      (n + s.retries_remaining ≤ s₀.retries_remaining)
      × ((others : ℕ) × (others + 1 < 2 ^ 64) × HoldsOne others s w)

  -- In every history of a retry state with fewer than 2^32 retries, the answers Yes so far and the
  -- retries that remain are together no more than the retries at the start, and the request holds one
  -- unit of the retry resource if its retry is on and none otherwise.
  pub History-Kept :
      (s₀ : Retry) {n : ℕ} {s : Retry} {w : World}
      → s₀.retries_remaining < 2 ^ 32
      → History s₀ n s w
      → Kept s₀ n s w
  unfolding Kept
  History-Kept s₀ b (begin w others h k) = (omega arith, (others, h, k))
  History-Kept s₀ b (change v others hist h k) =
      let (kept, rest) = History-Kept s₀ b hist in (kept, (others, h, k))
  History-Kept s₀ b (ask {n} {s} {w} headers reason r hist e) =
      let (kept, (others, h, k)) = History-Kept s₀ b hist in
      let a : Accounted others s.retries_remaining r =
        subst (Accounted others s.retries_remaining) (sym e)
          (should_retry-Accounted others s w headers reason h (omega arith) k) in
      (omega (arith, a.taken), (others, h, a.holds))
