-- ===== src/Upstream/HealthChecker/Tests.antt =====
-- Runs of HealthCheckerImplBase, and its theorems at concrete inputs.
use meliproxy.Upstream.HealthChecker.{
  Checker, Config, network, find, succeed, fail, handle_success, handle_failure, new_session,
}
use meliproxy.Upstream.HealthChecker.Thresholds.{changes_at_threshold, successes, failures}
use meliproxy.Upstream.HealthChecker.Gauge.{IsValid, Shows, handled-Shows}
use meliproxy.Upstream.HealthChecker.Events.{succeeds, step, step-IsValid}
use meliproxy.Shared.{◌==◌, ltb, ◌≡◌, leb, [], arith, ◌∷◌, true, refl}

abbrev thresholds : Config
thresholds = record {
  timeout = 1000;
  unhealthy_threshold = 3;
  healthy_threshold = 2;
  interval = 5000;
  interval_jitter = 0;
}

-- Host 7 is flagged and has a session, host 8 is not.
abbrev two_hosts : Checker
two_hosts = record {
  config = thresholds;
  stats = record {
    attempt = 0;
    success = 0;
    failure = 0;
    passive_failure = 0;
    network_failure = 0;
    healthy = 1;
  };
  runtime = [];
  generator = record { draws = λ n. n; used = 0 };
  cx_used = true;
  active_sessions = (7, new_session) ∷ (8, new_session) ∷ [];
  local_process_healthy = 1;
  failed = λ h. h == 7;
  called = [];
}

two_hosts-IsValid : IsValid two_hosts
unfolding find
two_hosts-IsValid = record { distinct = (refl, (refl, tt)); counted = refl }

step-IsValid_example : IsValid (handle_success two_hosts 7 new_session)
unfolding step find
step-IsValid_example =
    step-IsValid two_hosts (handle_success two_hosts 7 new_session) (succeeds 7) two_hosts-IsValid
      refl

handled-Shows_example :
    (IsValid (handle_success two_hosts 7 new_session)
      × Shows (handle_success two_hosts 7 new_session))
    × (IsValid (handle_failure two_hosts 7 new_session network)
        × Shows (handle_failure two_hosts 7 new_session network))
unfolding find
handled-Shows_example = handled-Shows two_hosts 7 new_session network two_hosts-IsValid refl

changes_at_threshold_example :
    ((successes thresholds 2 (fail thresholds network new_session true)).failed ≡ ltb 2 2)
    × ((failures thresholds 2 (succeed thresholds new_session true)).failed ≡ leb 3 2)
unfolding fail succeed
changes_at_threshold_example =
    changes_at_threshold thresholds network new_session new_session true true 2 2 (omega arith)
      (omega arith) (omega arith) (omega arith) refl refl (omega arith) (omega arith)
