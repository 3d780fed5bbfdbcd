-- ===== src/Upstream/HealthChecker/Events.antt =====
-- The count of healthy hosts over the checker's events: results, timers and changes of the members.
use meliproxy.Upstream.HealthChecker.{
  Checker, Session, FailureType, passive, network, put, find, erase, store, handle_success,
  handle_failure, on_interval_base, make_session, drop_session, remove_host, inc_healthy,
  dec_healthy, add_host, new_session, add_hosts, remove_hosts, on_timeout_base,
  set_unhealthy_cross_thread, on_cluster_member_update,
}
use meliproxy.Shared.{
  refl, some, ◌≡◌, List, arith, ◌+◌, ◌^◌, none, ◌∷◌, [], ◌%◌, ℕ, inr, inl, Bool-cases, ◌∙◌, sym,
  IsU64, Option-cases, ap, subst, Option, some_inj,
}
use meliproxy.Upstream.HealthChecker.Sessions.{
  Distinct, up, healthy_hosts, find-put, put-Distinct, put-healthy_hosts, erase-healthy_hosts,
  erase-Distinct,
}
use meliproxy.Upstream.HealthChecker.Gauge.{
  IsValid, up-le, on_interval_base-IsValid, handle_success-IsValid, handle_failure-IsValid,
  set_unhealthy-IsValid,
}

inc_healthy_lem :
    (c : Checker) (h : ℕ)
    → let c' = make_session c h in
      (c'.local_process_healthy % 2 ^ 64 ≡ (c.local_process_healthy + up (c.failed h)) % 2 ^ 64)
      × (c'.active_sessions ≡ c.active_sessions)
      × (c'.failed ≡ c.failed)
      × (IsU64 c.local_process_healthy → IsU64 c'.local_process_healthy)
unfolding make_session inc_healthy
inc_healthy_lem c h = elim (Bool-cases (c.failed h)) [
  | inl e ↦ rw (e, make_session) (omega arith, refl, refl, λ n. n)
  | inr e ↦ rw (e, make_session) (omega arith, refl, refl, λ n. omega arith)
]

drop_session_lem :
    (c : Checker) (h : ℕ)
    → let c' = drop_session c h in
      ((c'.local_process_healthy + up (c.failed h)) % 2 ^ 64 ≡ c.local_process_healthy % 2 ^ 64)
      × (c'.active_sessions ≡ c.active_sessions)
      × (c'.failed ≡ c.failed)
      × (IsU64 c.local_process_healthy → IsU64 c'.local_process_healthy)
unfolding drop_session dec_healthy
drop_session_lem c h = elim (Bool-cases (c.failed h)) [
  | inl e ↦ rw (e, drop_session) (omega arith, refl, refl, λ n. n)
  | inr e ↦ rw (e, drop_session) (omega arith, refl, refl, λ n. omega arith)
]

remove_host-IsValid : (c c' : Checker) (h : ℕ) → IsValid c → remove_host c h ≡ some c' → IsValid c'
unfolding remove_host
remove_host-IsValid c c' h v e = elim (Option-cases (find h c.active_sessions)) [
  | inl n ↦ cc (n, e)
  | inr (s, n) ↦
      let d = record c { active_sessions = erase h c.active_sessions } in
      let p = drop_session_lem d h in
      let k = erase-healthy_hosts c.failed h s c.active_sessions n in
      let g : drop_session d h ≡ c' = some_inj (rw (n, remove_host) at e) in
      subst IsValid g (record {
        distinct = rw p.1 (erase-Distinct h c.active_sessions v.distinct);
        counted = rw (p.1, p.2) (omega (arith, p.0, p.3, k, v.counted, up-le (c.failed h)));
      })
]

fresh_session-IsValid :
    (d : Checker) (h : ℕ)
    → Distinct d.active_sessions
    → d.local_process_healthy
      ≡ healthy_hosts d.failed (put h new_session d.active_sessions) % 2 ^ 64
    → IsValid (on_interval_base (store d h new_session) h new_session)
fresh_session-IsValid d h k e =
    on_interval_base-IsValid (store d h new_session) h new_session
      (record { distinct = put-Distinct h new_session d.active_sessions k; counted = e })
      (ground (arith, find-put h h new_session d.active_sessions))

-- The two ways in which a host's new session is counted.
made_once :
    (c : Checker) (h : ℕ)
    → IsValid c
    → find h c.active_sessions ≡ none
    → IsValid (on_interval_base (store (make_session c h) h new_session) h new_session)
made_once c h v n =
    let p = inc_healthy_lem c h in
    let k : healthy_hosts c.failed (put h new_session c.active_sessions)
        ≡ healthy_hosts c.failed c.active_sessions + up (c.failed h) =
      rw n at (put-healthy_hosts c.failed h new_session c.active_sessions) in
    fresh_session-IsValid (make_session c h) h (rw p.1 v.distinct)
      (rw (p.1, p.2) (omega (arith, p.0, p.3, v.counted, k)))

made_again :
    (c : Checker) (h : ℕ) (s : Session)
    → IsValid c
    → find h c.active_sessions ≡ some s
    → IsValid
        (on_interval_base (store (drop_session (make_session c h) h) h new_session) h new_session)
made_again c h s v n =
    let p = inc_healthy_lem c h in
    let q = drop_session_lem (make_session c h) h in
    let k : healthy_hosts c.failed (put h new_session c.active_sessions)
        ≡ healthy_hosts c.failed c.active_sessions + 0 =
      rw n at (put-healthy_hosts c.failed h new_session c.active_sessions) in
    let r : (make_session c h).failed h ≡ c.failed h = ap (λ f. f h) p.2 in
    let d : Checker = drop_session (make_session c h) h in
    let e₁ : d.active_sessions ≡ c.active_sessions = q.1 ∙ p.1 in
    let e₂ : d.failed ≡ c.failed = q.2 ∙ p.2 in
    let t : healthy_hosts d.failed (put h new_session d.active_sessions)
        ≡ healthy_hosts c.failed (put h new_session c.active_sessions) =
      cc in
    fresh_session-IsValid d h (subst Distinct (sym e₁) v.distinct)
      (omega (arith, t, p.0, p.3, q.0, q.3, ap up r, v.counted, k))

add_host-IsValid : (c : Checker) (h : ℕ) → IsValid c → IsValid (add_host c h)
unfolding add_host
add_host-IsValid c h v = elim (Option-cases (find h c.active_sessions)) [
  | inl n ↦ rw (n, add_host) (made_once c h v n)
  | inr (s, n) ↦ rw (n, add_host) (made_again c h s v n)
]

add_hosts-IsValid : (c : Checker) (hs : List ℕ) → IsValid c → IsValid (add_hosts c hs)
unfolding add_hosts
add_hosts-IsValid c [] v = v
add_hosts-IsValid c (h ∷ hs) v = add_hosts-IsValid (add_host c h) hs (add_host-IsValid c h v)

remove_hosts-IsValid :
    (c c' : Checker) (hs : List ℕ) → IsValid c → remove_hosts c hs ≡ some c' → IsValid c'
unfolding remove_hosts
remove_hosts-IsValid c c' [] v e = subst IsValid (some_inj e) v
remove_hosts-IsValid c c' (h ∷ hs) v e = elim (Option-cases (remove_host c h)) [
  | inl n ↦ cc (n, e)
  | inr (d, n) ↦
      remove_hosts-IsValid d c' hs (remove_host-IsValid c d h v n) (rw (n, remove_hosts) at e)
]

-- What reaches the checker: results of checks and timers of hosts that have a session, passive
-- failures of any host, and changes of the cluster's members.
pub data Event : Type 0 where
  succeeds timer_fires times_out fails_passively : ℕ → Event
  fails : ℕ → FailureType → Event
  members : List ℕ → List ℕ → Event

-- `none` is the removal of a host that has no session.
abbrev for_session : Checker → ℕ → (Session → Checker) → Option Checker
for_session c h f = elim (find h c.active_sessions) [ none ↦ some c | some s ↦ some (f s) ]

unfoldable pub step : Checker → Event → Option Checker
unfolding find
step c (succeeds h) = for_session c h (handle_success c h)
step c (fails h type) = for_session c h (λ s. handle_failure c h s type)
step c (timer_fires h) = for_session c h (on_interval_base c h)
step c (times_out h) = for_session c h (on_timeout_base c h)
step c (fails_passively h) = some (set_unhealthy_cross_thread c h)
step c (members added removed) = on_cluster_member_update c added removed

for_session-IsValid :
    (c c' : Checker) (h : ℕ) (f : Session → Checker)
    → IsValid c
    → ((s : Session) → find h c.active_sessions ≡ some s → IsValid (f s))
    → for_session c h f ≡ some c'
    → IsValid c'
for_session-IsValid c c' h f v k e = elim (Option-cases (find h c.active_sessions)) [
  | inl n ↦ subst IsValid (some_inj (rw (n, for_session) at e)) v
  | inr (s, n) ↦ subst IsValid (some_inj (rw (n, for_session) at e)) (k s n)
]

cross_thread-IsValid : (c : Checker) (h : ℕ) → IsValid c → IsValid (set_unhealthy_cross_thread c h)
unfolding set_unhealthy_cross_thread
cross_thread-IsValid c h v = elim (Option-cases (find h c.active_sessions)) [
  | inl n ↦ rw (n, set_unhealthy_cross_thread) v
  | inr (s, n) ↦ rw (n, set_unhealthy_cross_thread) (set_unhealthy-IsValid c h s v n passive).0
]

-- Every event keeps the count of the healthy hosts equal, modulo 2^64, to the number of sessions whose
-- host is not flagged, and keeps one session at most for each host.
pub step-IsValid : (c c' : Checker) (e : Event) → IsValid c → step c e ≡ some c' → IsValid c'
unfolding step on_timeout_base on_cluster_member_update
step-IsValid c c' (succeeds h) v e =
    for_session-IsValid c c' h (handle_success c h) v (λ s n. (handle_success-IsValid c h s v n).0)
      e
step-IsValid c c' (fails h type) v e =
    for_session-IsValid c c' h (λ s. handle_failure c h s type) v
      (λ s n. (handle_failure-IsValid c h s v n type).0) e
step-IsValid c c' (timer_fires h) v e =
    for_session-IsValid c c' h (on_interval_base c h) v (λ s n. on_interval_base-IsValid c h s v n)
      e
step-IsValid c c' (times_out h) v e =
    for_session-IsValid c c' h (on_timeout_base c h) v
      (λ s n. (handle_failure-IsValid c h s v n network).0) e
step-IsValid c c' (fails_passively h) v e = subst IsValid (some_inj e) (cross_thread-IsValid c h v)
step-IsValid c c' (members added removed) v e =
    remove_hosts-IsValid (add_hosts c added) c' removed (add_hosts-IsValid c added v) e
