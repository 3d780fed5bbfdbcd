-- ===== src/Upstream/OutlierDetection/Tests.antt =====
-- A detector with two hosts, of which one is ejected.
use meliproxy.Upstream.OutlierDetection.{
  Doubles, Detector, Monitor, step, interval_passes, process_success_rate_ejections,
  on_consecutive_5xx_worker, put_http_response_code, is_5xx,
}
use meliproxy.Upstream.OutlierDetection.Ejections.{IsValid}
use meliproxy.Upstream.OutlierDetection.Interval.{Holds}
use meliproxy.Upstream.OutlierDetection.Steps.{step-Holds}
use meliproxy.Upstream.OutlierDetection.Bounds.{ejections-IsWithin, IsWithin, limit, active}
use meliproxy.Upstream.OutlierDetection.Responses.{respond_all, respond_all-posted, threshold}
use meliproxy.Runtime.{get_integer, find}
use meliproxy.Shared.{
  Option, ◌+◌, All, if◌then◌else◌, ◌*◌, [], some, refl, ◌/◌, ◌&&◌, ◌≡◌, ◌∷◌, none, ℕ, leb, ltb,
  Bool, true, false, ◌-◌, arith,
}

-- Integers in place of doubles.
abbrev integers : Doubles
integers = record {
  from = λ n. n;
  minus_one = 0;
  plus = λ a b. a + b;
  minus = λ a b. a - b;
  times = λ a b. a * b;
  over = λ a b. a / b;
  square = λ a. a * a;
  square_root = λ a. a;
  is_less = ltb;
}

abbrev host_named : ℕ → Bool → Option ℕ → Monitor
host_named h failed time = record {
  host = h;
  failed_outlier_check = failed;
  consecutive_5xx_count = 0;
  last_ejection_time = time;
  last_unejection_time = none;
  num_ejections = 1;
  current_bucket = record { success_request_counter = 3; total_request_counter = 4 };
  backup_bucket = record { success_request_counter = 0; total_request_counter = 0 };
  host_success_rate = 0;
}

abbrev two_hosts : Detector
two_hosts = record {
  doubles = integers;
  config = record {
    base_ejection_time_ms = 30;
    consecutive_5xx = 2;
    max_ejection_percent = 50;
    success_rate_minimum_hosts = 1;
    success_rate_request_volume = 1;
    success_rate_stdev_factor = 1900;
    enforcing_consecutive_5xx = 100;
    enforcing_success_rate = 100;
  };
  runtime = [];
  generator = record { draws = λ n. n; used = 0 };
  stats = record {
    ejections_total = 1;
    ejections_active = 1;
    ejections_overflow = 0;
    ejections_consecutive_5xx = 1;
    ejections_success_rate = 0;
  };
  monitors = host_named 0 true (some 1000) ∷ host_named 1 false none ∷ [];
  posted = [];
  called = [];
  success_rate_average = 0;
  success_rate_ejection_threshold = 0;
}

two_hosts-IsValid : IsValid 0 two_hosts
two_hosts-IsValid = record {
  distinct = (refl, (refl, tt));
  timed = ((λ e. refl), ((λ e. absurd (cc e)), tt));
  active = refl;
}

step-Holds_example : Holds 0 (step (interval_passes 40000000) two_hosts)
step-Holds_example = step-Holds 0 (interval_passes 40000000) two_hosts two_hosts-IsValid tt

ejections-IsWithin_example :
    IsWithin
      (limit two_hosts)
      (active two_hosts)
      (active (process_success_rate_ejections 7 two_hosts))
    × IsWithin
        (limit two_hosts)
        (active two_hosts)
        (active (on_consecutive_5xx_worker 7 1 two_hosts))
ejections-IsWithin_example = ejections-IsWithin 7 1 two_hosts

two_errors : All (λ code. is_5xx code ≡ true) (503 ∷ 500 ∷ [])
unfolding is_5xx
two_errors = (refl, (refl, tt))

respond_all-posted_example :
    (respond_all two_hosts (503 ∷ 500 ∷ []) (host_named 1 false none)).1
    ≡ (if ltb 0 (threshold two_hosts) && leb (threshold two_hosts) 2 then 1 else 0)
respond_all-posted_example =
    respond_all-posted two_hosts (503 ∷ 500 ∷ []) (host_named 1 false none) two_errors (omega arith)

two_errors_posted : (respond_all two_hosts (503 ∷ 500 ∷ []) (host_named 1 false none)).1 ≡ 1
unfolding put_http_response_code is_5xx get_integer find
two_errors_posted = refl
