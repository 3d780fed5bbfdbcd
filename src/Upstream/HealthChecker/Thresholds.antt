-- ===== src/Upstream/HealthChecker/Thresholds.antt =====
-- How many checks in a row move a host: the decisions of handleSuccess and setUnhealthy, repeated.
use meliproxy.Upstream.HealthChecker.{
  Config, Session, Verdict, FailureType, network, active, passive, succeed, fail,
}
use meliproxy.Shared.{
  true, Bool, ltb, false, ◌^◌, zero, suc, ◌≡◌, ◌≤◌, leb, leb-false, refl, arith, lt→ltb, ℕ, sym,
  ◌<◌,
}

-- `n` successes in a row, and `n` network failures in a row, after a verdict.
abbrev pub successes : Config → ℕ → Verdict → Verdict
successes f zero v = v
successes f (suc n) v = let w = successes f n v in succeed f w.session w.failed

abbrev pub failures : Config → ℕ → Verdict → Verdict
failures f zero v = v
failures f (suc n) v = let w = failures f n v in fail f network w.session w.failed

successes_lem :
    (f : Config) (v : Verdict) (n : ℕ)
    → f.healthy_threshold < 2 ^ 32
    → v.failed ≡ true
    → v.session.first_check ≡ false
    → v.session.num_healthy ≡ 0
    → n < f.healthy_threshold
    → let w = successes f n v in
      (w.failed ≡ true) × (w.session.first_check ≡ false) × (w.session.num_healthy ≡ n)
unfolding succeed
successes_lem f v zero b e₁ e₂ e₃ h = (e₁, e₂, e₃)
successes_lem f v (suc n) b e₁ e₂ e₃ h = ground (arith, successes_lem f v n b e₁ e₂ e₃)

failures_lem :
    (f : Config) (v : Verdict) (n : ℕ)
    → f.unhealthy_threshold < 2 ^ 32
    → v.failed ≡ false
    → v.session.num_unhealthy ≡ 0
    → n < f.unhealthy_threshold
    → let w = failures f n v in (w.failed ≡ false) × (w.session.num_unhealthy ≡ n)
unfolding fail
failures_lem f v zero b e₁ e₂ h = (e₁, e₂)
failures_lem f v (suc n) b e₁ e₂ h = ground (arith, failures_lem f v n b e₁ e₂)

fail_resets :
    (f : Config) (type : FailureType) (s : Session) (failed : Bool)
    → ((fail f type s failed).session.first_check ≡ false)
      × ((fail f type s failed).session.num_healthy ≡ 0)
unfolding fail
fail_resets f active s failed = (refl, refl)
fail_resets f passive s failed = (refl, refl)
fail_resets f network s failed = ground arith

-- After a failure that leaves the host flagged, the successes that follow clear the flag at the
-- healthy threshold and not before, if that threshold is a positive number in 32 bits.
recovers_at_threshold :
    (f : Config) (type : FailureType) (s : Session) (failed : Bool) (n : ℕ)
    → 0 < f.healthy_threshold
    → f.healthy_threshold < 2 ^ 32
    → (fail f type s failed).failed ≡ true
    → n ≤ f.healthy_threshold
    → (successes f n (fail f type s failed)).failed ≡ ltb n f.healthy_threshold
recovers_at_threshold f type s failed zero p b e h = rw e (sym (lt→ltb 0 f.healthy_threshold p))
recovers_at_threshold f type s failed (suc n) p b e h =
    let r = fail_resets f type s failed in
    let k = successes_lem f (fail f type s failed) n b e r.0 r.1 (omega arith) in
    unfold succeed in ground (arith, k)

-- After a success the network failures that follow flag a host at the unhealthy threshold and not
-- before, if the success left it clear and that threshold is a positive number in 32 bits.
falls_at_threshold :
    (f : Config) (s : Session) (failed : Bool) (n : ℕ)
    → 0 < f.unhealthy_threshold
    → f.unhealthy_threshold < 2 ^ 32
    → (succeed f s failed).failed ≡ false
    → n ≤ f.unhealthy_threshold
    → (failures f n (succeed f s failed)).failed ≡ leb f.unhealthy_threshold n
falls_at_threshold f s failed zero p b e h = rw e (sym (leb-false f.unhealthy_threshold 0 p))
falls_at_threshold f s failed (suc n) p b e h =
    let r : (succeed f s failed).session.num_unhealthy ≡ 0 = unfold succeed in ground arith in
    let k = failures_lem f (succeed f s failed) n b e r (omega arith) in
    unfold fail in ground (arith, k)

-- If the two thresholds are positive numbers in 32 bits: after a failure that leaves the host flagged, the
-- successes that follow clear the flag at the healthy threshold and not before; and after a success that leaves
-- the host clear, the network failures that follow flag it at the unhealthy threshold and not before.
pub changes_at_threshold :
    (f : Config) (type : FailureType) (s t : Session) (failed failed_t : Bool) (n m : ℕ)
    → 0 < f.healthy_threshold
    → f.healthy_threshold < 2 ^ 32
    → 0 < f.unhealthy_threshold
    → f.unhealthy_threshold < 2 ^ 32
    → (fail f type s failed).failed ≡ true
    → (succeed f t failed_t).failed ≡ false
    → n ≤ f.healthy_threshold
    → m ≤ f.unhealthy_threshold
    → ((successes f n (fail f type s failed)).failed ≡ ltb n f.healthy_threshold)
      × ((failures f m (succeed f t failed_t)).failed ≡ leb f.unhealthy_threshold m)
changes_at_threshold f type s t failed failed_t n m p b q c e h k l =
    (recovers_at_threshold f type s failed n p b e k, falls_at_threshold f t failed_t m q c h l)
