-- ===== src/Upstream/HealthChecker.antt =====
-- envoy/envoy/source/common/upstream/health_checker_impl.h and health_checker_impl.cc: the base of the
-- health checkers, HealthCheckerImplBase and its ActiveHealthCheckSession. A host is a number.
-- What a kind of checker does to its own connection (`onInterval`, `onTimeout`) is left out: it keeps
-- no state of the base.
pub mod Thresholds
pub mod Sessions
pub mod Gauge
pub mod Events
pub mod Tests
use meliproxy.Runtime.{Snapshot, Random, get_integer, random}
use meliproxy.Shared.{
  max, ◌+◌, Bool, not, ◌^◌, dec64, some, ℕ, ◌-◌, inc32, ltb, ◌%◌, min, inc64, List, none, Option,
  ◌∷◌, true, false, [], ◌==◌, if◌then◌else◌,
}

pub data FailureType : Type 0 where
  active passive network : FailureType

-- A timer is the time for which it is enabled, `none` if it is not.
pub record Session : Type 0 where
  pub interval_timer : Option ℕ
  pub timeout_timer : Option ℕ
  pub num_unhealthy : ℕ
  pub num_healthy : ℕ
  pub first_check : Bool

pub record Config : Type 0 where
  pub timeout : ℕ
  pub unhealthy_threshold : ℕ
  pub healthy_threshold : ℕ
  pub interval : ℕ
  pub interval_jitter : ℕ

pub record Stats : Type 0 where
  pub attempt : ℕ
  pub success : ℕ
  pub failure : ℕ
  pub passive_failure : ℕ
  pub network_failure : ℕ
  pub healthy : ℕ

-- `failed` is the flag FAILED_ACTIVE_HC of each host, `cx_used` whether the cluster has ever made a
-- connection, `called` the calls of the callbacks, last first.
pub record Checker : Type 0 where
  pub config : Config
  pub stats : Stats
  pub runtime : Snapshot
  pub generator : Random
  pub cx_used : Bool
  pub active_sessions : List (ℕ × Session)
  pub local_process_healthy : ℕ
  pub failed : ℕ → Bool
  pub called : List (ℕ × Bool)

pub refresh_healthy_stat : Checker → Checker
refresh_healthy_stat c = record c { stats = record (c.stats) { healthy = c.local_process_healthy } }

pub inc_healthy : Checker → Checker
unfolding refresh_healthy_stat
inc_healthy c =
    refresh_healthy_stat (record c { local_process_healthy = inc64 c.local_process_healthy })

pub dec_healthy : Checker → Checker
unfolding refresh_healthy_stat
dec_healthy c =
    refresh_healthy_stat (record c { local_process_healthy = dec64 c.local_process_healthy })

pub run_callbacks : Checker → ℕ → Bool → Checker
unfolding refresh_healthy_stat
run_callbacks c host changed_state =
    let c' = refresh_healthy_stat c in record c' { called = (host, changed_state) ∷ c'.called }

abbrev no_traffic_interval : ℕ
no_traffic_interval = 60000

-- `interval`: the time to the next check.
pub interval : Checker → ℕ × Checker
interval c =
    let base = if c.cx_used then c.config.interval else no_traffic_interval in
    let (draw, g) = random c.generator in
    let jittered = (base + draw % c.config.interval_jitter) % 2 ^ 64 in
    let min_interval = get_integer c.runtime "health_check.min_interval" 0 in
    let max_interval = get_integer c.runtime "health_check.max_interval" (2 ^ 64 - 1) in
    if ltb 0 c.config.interval_jitter
    then (max (min jittered max_interval) min_interval, record c { generator = g })
    else (max (min base max_interval) min_interval, c)

-- The map of sessions: `active_sessions_[host] = …`, `find` and `erase`.
pub put : ℕ → Session → List (ℕ × Session) → List (ℕ × Session)
put h s [] = (h, s) ∷ []
put h s ((k, t) ∷ m) = if k == h then (h, s) ∷ m else (k, t) ∷ put h s m

pub find : ℕ → List (ℕ × Session) → Option Session
find h [] = none
find h ((k, t) ∷ m) = if k == h then some t else find h m

pub erase : ℕ → List (ℕ × Session) → List (ℕ × Session)
erase h [] = []
erase h ((k, t) ∷ m) = if k == h then m else (k, t) ∷ erase h m

abbrev pub update : (ℕ → Bool) → ℕ → Bool → ℕ → Bool
update f h b k = if k == h then b else f k

abbrev pub store : Checker → ℕ → Session → Checker
store c h s = record c { active_sessions = put h s c.active_sessions }

-- What a check decides: the session, the host's flag, and whether the flag changed.
pub record Verdict : Type 0 where
  pub session : Session
  pub failed : Bool
  pub changed : Bool

-- The decision in `handleSuccess`.
pub succeed : Config → Session → Bool → Verdict
succeed f s failed =
    let s₁ = record s { num_unhealthy = 0 } in
    let n = inc32 s.num_healthy in
    if not failed
    then record { session = record s₁ { first_check = false }; failed = false; changed = false }
    else if s.first_check
    then record { session = record s₁ { first_check = false }; failed = false; changed = true }
    else record {
      session = record s₁ { num_healthy = n; first_check = false };
      failed = not (n == f.healthy_threshold);
      changed = n == f.healthy_threshold;
    }

-- The decision in `setUnhealthy`.
pub fail : Config → FailureType → Session → Bool → Verdict
fail f network s failed =
    let s₁ = record s { num_healthy = 0 } in
    let n = inc32 s.num_unhealthy in
    if failed
    then record { session = record s₁ { first_check = false }; failed = true; changed = false }
    else record {
      session = record s₁ { num_unhealthy = n; first_check = false };
      failed = n == f.unhealthy_threshold;
      changed = n == f.unhealthy_threshold;
    }
fail f type s failed = record {
  session = record s { num_healthy = 0; first_check = false };
  failed = true;
  changed = not failed;
}

-- The next check is due after the interval, and nothing is waited for.
await : Session → ℕ → Session
await s ms = record s { timeout_timer = none; interval_timer = some ms }

-- The flag, the counts and the callbacks after a success.
pub success_called : Checker → ℕ → Verdict → Checker
unfolding inc_healthy run_callbacks
success_called c h v =
    let c₁ = record c { failed = update c.failed h v.failed } in
    let c₂ = if v.changed then inc_healthy c₁ else c₁ in
    run_callbacks (record c₂ { stats = record (c₂.stats) { success = inc64 c₂.stats.success } }) h
      v.changed

pub handle_success : Checker → ℕ → Session → Checker
unfolding succeed success_called interval await
handle_success c h s =
    let v = succeed c.config s (c.failed h) in
    let (ms, c₁) = interval (success_called c h v) in store c₁ h (await v.session ms)

count_failure : FailureType → Stats → Stats
count_failure active t = record t { failure = inc64 t.failure }
count_failure network t = record t {
  failure = inc64 t.failure;
  network_failure = inc64 t.network_failure;
}
count_failure passive t = record t {
  failure = inc64 t.failure;
  passive_failure = inc64 t.passive_failure;
}

-- The flag, the counts and the callbacks after a failure.
pub failure_called : Checker → ℕ → FailureType → Verdict → Checker
unfolding dec_healthy run_callbacks count_failure
failure_called c h type v =
    let c₁ = record c { failed = update c.failed h v.failed } in
    let c₂ = if v.changed then dec_healthy c₁ else c₁ in
    run_callbacks (record c₂ { stats = count_failure type c₂.stats }) h v.changed

-- `setUnhealthy`, with the session that it leaves.
pub set_unhealthy : Checker → ℕ → Session → FailureType → Checker × Session
unfolding fail failure_called
set_unhealthy c h s type =
    let v = fail c.config type s (c.failed h) in
    (store (failure_called c h type v) h v.session, v.session)

pub handle_failure : Checker → ℕ → Session → FailureType → Checker
unfolding set_unhealthy interval await
handle_failure c h s type =
    let (c₁, s₁) = set_unhealthy c h s type in
    let (ms, c₂) = interval c₁ in store c₂ h (await s₁ ms)

-- `onIntervalBase`: a check is started.
pub on_interval_base : Checker → ℕ → Session → Checker
on_interval_base c h s =
    store (record c { stats = record (c.stats) { attempt = inc64 c.stats.attempt } }) h
      (record s { timeout_timer = some c.config.timeout })

pub on_timeout_base : Checker → ℕ → Session → Checker
unfolding handle_failure
on_timeout_base c h s = handle_failure c h s network

abbrev new_session : Session
new_session = record {
  interval_timer = none;
  timeout_timer = none;
  num_unhealthy = 0;
  num_healthy = 0;
  first_check = true;
}

-- The constructor and the destructor of a session.
make_session : Checker → ℕ → Checker
unfolding inc_healthy
make_session c h = if c.failed h then c else inc_healthy c

drop_session : Checker → ℕ → Checker
unfolding dec_healthy
drop_session c h = if c.failed h then c else dec_healthy c

-- One round of `addHosts`. A session that the host has already is destroyed by the assignment.
add_host : Checker → ℕ → Checker
unfolding make_session drop_session find on_interval_base
add_host c h =
    let c₁ = make_session c h in
    let c₂ : Checker = elim (find h c.active_sessions) [
      | none ↦ c₁
      | some old ↦ drop_session c₁ h
    ] in
    on_interval_base (store c₂ h new_session) h new_session

pub add_hosts : Checker → List ℕ → Checker
unfolding add_host
add_hosts c [] = c
add_hosts c (h ∷ hs) = add_hosts (add_host c h) hs

-- One round of the removal; a host without a session is an error that only an assertion tells.
remove_host : Checker → ℕ → Option Checker
unfolding drop_session erase find
remove_host c h = elim (find h c.active_sessions) [
  | none ↦ none
  | some s ↦ some (drop_session (record c { active_sessions = erase h c.active_sessions }) h)
]

remove_hosts : Checker → List ℕ → Option Checker
unfolding remove_host
remove_hosts c [] = some c
remove_hosts c (h ∷ hs) = elim (remove_host c h) [ none ↦ none | some c' ↦ remove_hosts c' hs ]

pub on_cluster_member_update : Checker → List ℕ → List ℕ → Option Checker
unfolding add_hosts remove_hosts
on_cluster_member_update c hosts_added hosts_removed =
    remove_hosts (add_hosts c hosts_added) hosts_removed

-- `start`.
pub start : Checker → List ℕ → Checker
unfolding add_hosts
start c hosts = add_hosts c hosts

-- What `setUnhealthyCrossThread` posts to the main thread: the host may be gone by then.
pub set_unhealthy_cross_thread : Checker → ℕ → Checker
unfolding find set_unhealthy
set_unhealthy_cross_thread c h = elim (find h c.active_sessions) [
  | none ↦ c
  | some s ↦ (set_unhealthy c h s passive).0
]
