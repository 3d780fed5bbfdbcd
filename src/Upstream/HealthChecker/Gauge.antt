-- ===== src/Upstream/HealthChecker/Gauge.antt =====
-- The number of healthy hosts that HealthCheckerImplBase keeps is the number of its hosts whose flag
-- FAILED_ACTIVE_HC is clear.
use meliproxy.Upstream.HealthChecker.{
  Checker, Config, Session, Verdict, FailureType, active, passive, network, put, find, update,
  store, succeed, fail, interval, count_failure, success_called, failure_called, handle_success,
  set_unhealthy, await, handle_failure, on_interval_base,
}
use meliproxy.Shared.{
  refl, Bool, some, ◌≡◌, arith, ◌+◌, ◌^◌, ◌%◌, ℕ, if◌then◌else◌, inr, inl, Bool-cases, ltb, ◌-◌,
  inc64, dec64, ◌∙◌, ◌≤◌, sym, ap,
}
use meliproxy.Upstream.HealthChecker.Sessions.{
  Sessions, Distinct, up, healthy_hosts, find-put, put-Distinct, put-healthy_hosts, update-present,
}

-- The count is kept in 64 bits.
pub record IsValid (c : Checker) : Type 0 where
  pub distinct : Distinct c.active_sessions
  pub counted : c.local_process_healthy ≡ healthy_hosts c.failed c.active_sessions % 2 ^ 64

pub up-le : (b : Bool) → up b ≤ 1
up-le b = ground arith

abbrev pub one_if : Bool → ℕ
one_if b = if b then 1 else 0

-- A success changes the flag of a host only from failed, and a failure only to failed.
pub succeed-up :
    (f : Config) (s : Session) (failed : Bool)
    → up (succeed f s failed).failed ≡ up failed + one_if (succeed f s failed).changed
unfolding succeed
succeed-up f s failed = ground arith

pub fail-up :
    (f : Config) (type : FailureType) (s : Session) (failed : Bool)
    → up failed ≡ up (fail f type s failed).failed + one_if (fail f type s failed).changed
unfolding fail
fail-up f active s failed = ground arith
fail-up f passive s failed = ground arith
fail-up f network s failed = ground arith

-- What the interval's choice leaves alone.
pub interval-keeps :
    (c : Checker)
    → ((interval c).1.active_sessions ≡ c.active_sessions)
      × ((interval c).1.local_process_healthy ≡ c.local_process_healthy)
      × ((interval c).1.failed ≡ c.failed)
      × ((interval c).1.stats.healthy ≡ c.stats.healthy)
unfolding interval
interval-keeps c = elim (Bool-cases (ltb 0 c.config.interval_jitter)) [
  | inl e ↦ rw (e, interval) (refl, refl, refl, refl)
  | inr e ↦ rw (e, interval) (refl, refl, refl, refl)
]

-- A host's flag and session change together with the count.
pub settle :
    (m : Sessions) (f : ℕ → Bool) (h : ℕ) (b : Bool) (s s' : Session)
    → Distinct m
    → find h m ≡ some s
    → healthy_hosts (update f h b) (put h s' m) + up (f h) ≡ healthy_hosts f m + up b
settle m f h b s s' d e =
    ground (arith, put-healthy_hosts (update f h b) h s' m, update-present f h b s m d e)

-- The gauge shows the count.
abbrev pub Shows : Checker → Type 0
Shows c = c.stats.healthy ≡ healthy_hosts c.failed c.active_sessions % 2 ^ 64

pub success_called_lem :
    (c : Checker) (h : ℕ) (v : Verdict)
    → let c' = success_called c h v in
      let n = if v.changed then inc64 c.local_process_healthy else c.local_process_healthy in
      (c'.local_process_healthy ≡ n)
      × (c'.stats.healthy ≡ n)
      × (c'.active_sessions ≡ c.active_sessions)
      × (c'.failed ≡ update c.failed h v.failed)
unfolding success_called
success_called_lem c h v = elim (Bool-cases v.changed) [
  | inl e ↦ rw (e, success_called) (refl, refl, refl, refl)
  | inr e ↦ rw (e, success_called) (refl, refl, refl, refl)
]

pub failure_called_lem :
    (c : Checker) (h : ℕ) (type : FailureType) (v : Verdict)
    → let c' = failure_called c h type v in
      let n = if v.changed then dec64 c.local_process_healthy else c.local_process_healthy in
      (c'.local_process_healthy ≡ n)
      × (c'.stats.healthy ≡ n)
      × (c'.active_sessions ≡ c.active_sessions)
      × (c'.failed ≡ update c.failed h v.failed)
unfolding failure_called count_failure
failure_called_lem c h active v = elim (Bool-cases v.changed) [
  | inl e ↦ rw (e, failure_called) (refl, refl, refl, refl)
  | inr e ↦ rw (e, failure_called) (refl, refl, refl, refl)
]
failure_called_lem c h passive v = elim (Bool-cases v.changed) [
  | inl e ↦ rw (e, failure_called) (refl, refl, refl, refl)
  | inr e ↦ rw (e, failure_called) (refl, refl, refl, refl)
]
failure_called_lem c h network v = elim (Bool-cases v.changed) [
  | inl e ↦ rw (e, failure_called) (refl, refl, refl, refl)
  | inr e ↦ rw (e, failure_called) (refl, refl, refl, refl)
]

-- Storing a host's session keeps a count that was settled for its new flag.
pub store-IsValid :
    (c : Checker) (m : Sessions) (f : ℕ → Bool) (h : ℕ) (b : Bool) (s s' : Session)
    → Distinct m
    → find h m ≡ some s
    → c.active_sessions ≡ m
    → c.failed ≡ update f h b
    → c.local_process_healthy ≡ (healthy_hosts f m + up b + 2 ^ 64 - up (f h)) % 2 ^ 64
    → c.stats.healthy ≡ c.local_process_healthy
    → IsValid (store c h s') × Shows (store c h s')
store-IsValid c m f h b s s' d e em ef en eg =
    let k = settle m f h b s s' d e in
    let n : healthy_hosts c.failed (put h s' c.active_sessions)
        ≡ healthy_hosts (update f h b) (put h s' m) =
      rw (em, ef) in
    let counted : c.local_process_healthy
        ≡ healthy_hosts c.failed (put h s' c.active_sessions) % 2 ^ 64 =
      omega (arith, n, k, en, up-le (f h)) in
    (
      record { distinct = put-Distinct h s' c.active_sessions (rw em d); counted = counted },
      eg ∙ counted,
    )

module _ (c : Checker) (h : ℕ) (s : Session) (v : IsValid c)
    (e : find h c.active_sessions ≡ some s) where
  -- A success of a host that has a session keeps the count of the healthy hosts, and the gauge shows it.
  pub handle_success-IsValid : IsValid (handle_success c h s) × Shows (handle_success c h s)
  unfolding handle_success
  handle_success-IsValid =
      let w = succeed c.config s (c.failed h) in
      let p = success_called_lem c h w in
      let c₁ = success_called c h w in
      let q = interval-keeps c₁ in
      store-IsValid (interval c₁).1 c.active_sessions c.failed h w.failed s
        (await w.session (interval c₁).0) v.distinct e (q.0 ∙ p.2) (q.2 ∙ p.3)
        (ground (arith, p.0, q.1, v.counted, succeed-up c.config s (c.failed h)))
        (q.3 ∙ p.1 ∙ sym (q.1 ∙ p.0))

  pub set_unhealthy-IsValid :
      (type : FailureType)
      → IsValid (set_unhealthy c h s type).0 × Shows (set_unhealthy c h s type).0
  unfolding set_unhealthy
  set_unhealthy-IsValid type =
      let w = fail c.config type s (c.failed h) in
      let p = failure_called_lem c h type w in
      store-IsValid (failure_called c h type w) c.active_sessions c.failed h w.failed s w.session
        v.distinct e p.2 p.3 (ground (arith, p.0, v.counted, fail-up c.config type s (c.failed h)))
        (p.1 ∙ sym p.0)

-- Storing a session of a host that has one, with its flag left alone.
pub restore-IsValid :
    (c : Checker) (h : ℕ) (s s' : Session)
    → IsValid c × Shows c
    → find h c.active_sessions ≡ some s
    → IsValid (store c h s') × Shows (store c h s')
restore-IsValid c h s s' (v, g) e =
    let k = put-healthy_hosts c.failed h s' c.active_sessions in
    let n : healthy_hosts c.failed (put h s' c.active_sessions)
        ≡ healthy_hosts c.failed c.active_sessions =
      ground (arith, k) in
    (
      record {
        distinct = put-Distinct h s' c.active_sessions v.distinct;
        counted = omega (arith, n, v.counted);
      },
      omega (arith, n, g),
    )

pub interval-IsValid :
    (c : Checker) → IsValid c × Shows c → IsValid (interval c).1 × Shows (interval c).1
interval-IsValid c (v, g) =
    let q = interval-keeps c in
    (
      record { distinct = rw q.0 v.distinct; counted = rw (q.0, q.1, q.2) v.counted },
      rw (q.0, q.2, q.3) g,
    )

module _ (c : Checker) (h : ℕ) (s : Session) (v : IsValid c)
    (e : find h c.active_sessions ≡ some s) where
  -- So does a failure of a host that has a session.
  pub handle_failure-IsValid :
      (type : FailureType) → IsValid (handle_failure c h s type) × Shows (handle_failure c h s type)
  unfolding handle_failure
  handle_failure-IsValid type =
      let c₁ = (set_unhealthy c h s type).0 in
      restore-IsValid (interval c₁).1 h (set_unhealthy c h s type).1
        (await (set_unhealthy c h s type).1 (interval c₁).0)
        (interval-IsValid c₁ (set_unhealthy-IsValid c h s v e type))
        ((ap (find h) (interval-keeps c₁).0) ∙ unfold set_unhealthy in stored type)
    where
      stored :
          (type : FailureType)
          → find h (
              put h
                (fail c.config type s (c.failed h)).session
                (failure_called c h type (fail c.config type s (c.failed h))).active_sessions)
            ≡ some (fail c.config type s (c.failed h)).session
      stored type = ground (
        arith,
        find-put h h (fail c.config type s (c.failed h)).session
            (failure_called c h type (fail c.config type s (c.failed h))).active_sessions,
      )

-- A success and a failure of a host that has a session keep the count of the healthy hosts, and the gauge
-- shows it.
pub handled-Shows :
    (c : Checker) (h : ℕ) (s : Session) (type : FailureType)
    → IsValid c
    → find h c.active_sessions ≡ some s
    → (IsValid (handle_success c h s) × Shows (handle_success c h s))
      × (IsValid (handle_failure c h s type) × Shows (handle_failure c h s type))
handled-Shows c h s type v e =
    (handle_success-IsValid c h s v e, handle_failure-IsValid c h s v e type)

pub on_interval_base-IsValid :
    (c : Checker) (h : ℕ) (s : Session)
    → IsValid c
    → find h c.active_sessions ≡ some s
    → IsValid (on_interval_base c h s)
unfolding on_interval_base
on_interval_base-IsValid c h s v e =
    let k =
      put-healthy_hosts c.failed h (record s { timeout_timer = some c.config.timeout })
        c.active_sessions in
    record {
      distinct =
          put-Distinct h (record s { timeout_timer = some c.config.timeout }) c.active_sessions
            v.distinct;
      counted = ground (arith, k, v.counted);
    }
