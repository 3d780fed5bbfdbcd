-- ===== src/Upstream/OutlierDetection.antt =====
-- envoy/envoy/source/common/upstream/outlier_detection_impl.h and outlier_detection_impl.cc: the
-- detector that takes bad hosts out of rotation. Times are nanoseconds. The arithmetic on doubles is
-- a parameter, but for the test of the share of ejected hosts, which is exact up to 2 ^ 45 hosts. A
-- host stands for its health flag and its monitor. The log of ejections is left out, a call reads the time once, and the callbacks
-- are written down. What a worker posts to the main thread waits in `posted`.
mod State
pub mod Ejections
pub mod Outliers
pub mod Interval
pub mod Steps
pub mod Bounds
pub mod Responses
pub mod Tests
pub use meliproxy.Upstream.OutlierDetection.State.{
  Bucket, Double, Doubles, DetectorConfig, EjectionType, consecutive_5xx_responses, success_rate,
  DetectionStats, Monitor, Detector, Event, host_responds, main_thread_runs, interval_passes,
  host_added, host_removed,
}
use Prim.Native.String.{String}
use meliproxy.Runtime.{Snapshot, Random, get_integer, feature_enabled}
use meliproxy.Shared.{
  List, Option, some, none, Bool, ◌++◌, inc64, inc32, ◌-◌, ltb, false, min, ℕ, not, ◌&&◌, leb,
  dec64, true, length, ◌==◌, [], if◌then◌else◌, ◌*◌, ◌∷◌,
}

-- A call that throws ends the step.
infixl 5 ◌>>=◌
abbrev pub ◌>>=◌ : {A B : Type 0} → Option A → (A → Option B) → Option B
◌>>=◌ none f = none
◌>>=◌ (some a) f = f a

-- `eject`
pub eject : ℕ → Monitor → Monitor
eject ejection_time m = record m {
  failed_outlier_check = true;
  num_ejections = inc32 m.num_ejections;
  last_ejection_time = some ejection_time;
}

-- `uneject`, and the health flag.
pub uneject : ℕ → Monitor → Monitor
uneject unejection_time m = record m {
  failed_outlier_check = false;
  last_unejection_time = some unejection_time;
}

-- `updateCurrentSuccessRateBucket` and `updateCurrentWriter`
pub update_current_bucket : Monitor → Monitor
update_current_bucket m = record m {
  current_bucket = record { success_request_counter = 0; total_request_counter = 0 };
  backup_bucket = m.current_bucket;
}

abbrev pub reset_consecutive_5xx : Monitor → Monitor
reset_consecutive_5xx m = record m { consecutive_5xx_count = 0 }

-- `getSuccessRate`
pub get_success_rate : Doubles → ℕ → Monitor → Option Double
get_success_rate f success_rate_request_volume m =
    if ltb m.backup_bucket.total_request_counter success_rate_request_volume
    then none
    else some (
        f.over (f.times (f.from m.backup_bucket.success_request_counter) (f.from 100))
          (f.from m.backup_bucket.total_request_counter))

pub is_5xx : ℕ → Bool
is_5xx code = leb 500 code && ltb code 600

-- `putHttpResponseCode`, and whether the host is to be posted to the main thread.
pub put_http_response_code : Detector → ℕ → Monitor → Monitor × Bool
unfolding is_5xx
put_http_response_code d response_code m =
    let b = m.current_bucket in
    let count = inc32 m.consecutive_5xx_count in
    let counted = record b { total_request_counter = inc64 b.total_request_counter } in
    if is_5xx response_code
    then (
      record m { current_bucket = counted; consecutive_5xx_count = count },
      count == get_integer d.runtime "outlier_detection.consecutive_5xx" d.config.consecutive_5xx,
    )
    else (
      record m {
        current_bucket = record counted {
          success_request_counter = inc64 b.success_request_counter;
        };
        consecutive_5xx_count = 0;
      },
      false,
    )

pub find_monitor : ℕ → List Monitor → Option Monitor
find_monitor h [] = none
find_monitor h (m ∷ ms) = if m.host == h then some m else find_monitor h ms

-- Changes the monitor of a host.
pub at_host : ℕ → (Monitor → Monitor) → List Monitor → List Monitor
at_host h f [] = []
at_host h f (m ∷ ms) = if m.host == h then f m ∷ ms else m ∷ at_host h f ms

pub erase : ℕ → List Monitor → List Monitor
erase h [] = []
erase h (m ∷ ms) = if m.host == h then ms else m ∷ erase h ms

-- `enforceEjection`
pub enforce_ejection : EjectionType → Detector → Bool × Random
enforce_ejection consecutive_5xx_responses d =
    feature_enabled d.runtime d.generator "outlier_detection.enforcing_consecutive_5xx"
      d.config.enforcing_consecutive_5xx
enforce_ejection success_rate d =
    feature_enabled d.runtime d.generator "outlier_detection.enforcing_success_rate"
      d.config.enforcing_success_rate

pub max_percent : Detector → ℕ
max_percent d =
    min 100
      (get_integer d.runtime "outlier_detection.max_ejection_percent" d.config.max_ejection_percent)

-- `ejectHost`, for a host with a monitor.
pub eject_host : ℕ → ℕ → EjectionType → Detector → Detector
unfolding enforce_ejection max_percent at_host
eject_host now h type d =
    let (enforced, r) = enforce_ejection type d in
    let total = inc64 d.stats.ejections_total in
    if ltb (100 * d.stats.ejections_active) (max_percent d * length d.monitors)
    then (if enforced
        then record d {
          generator = r;
          stats = record (d.stats) {
            ejections_total = total;
            ejections_active = inc64 d.stats.ejections_active;
          };
          monitors = at_host h (eject now) d.monitors;
          called = h ∷ d.called;
        }
        else record d { generator = r; stats = record (d.stats) { ejections_total = total } })
    else record d {
      stats = record (d.stats) { ejections_overflow = inc64 d.stats.ejections_overflow };
    }

-- `onConsecutive5xxWorker`
pub on_consecutive_5xx_worker : ℕ → ℕ → Detector → Detector
unfolding eject_host
on_consecutive_5xx_worker now h d = elim (find_monitor h d.monitors) [
  | none ↦ d
  | some m ↦
      let d₁ = eject_host now h consecutive_5xx_responses (record d {
        stats = record (d.stats) {
          ejections_consecutive_5xx = inc64 d.stats.ejections_consecutive_5xx;
        };
      }) in
      if m.failed_outlier_check
      then d
      else record d₁ { monitors = at_host h reset_consecutive_5xx d₁.monitors }
]

-- `successRateEjectionThreshold`
pub sum_of_squares : Doubles → Double → List (ℕ × Double) → Double → Double
sum_of_squares f mean [] variance = variance
sum_of_squares f mean ((h, rate) ∷ hosts) variance =
    sum_of_squares f mean hosts (f.plus variance (f.square (f.minus rate mean)))

pub success_rate_ejection_threshold_of :
    Doubles → Double → List (ℕ × Double) → Double → Double × Double
success_rate_ejection_threshold_of f success_rate_sum hosts success_rate_stdev_factor =
    let size = f.from (length hosts) in
    let mean = f.over success_rate_sum size in
    let variance = f.over (sum_of_squares f mean hosts (f.from 0)) size in
    (mean, f.minus mean (f.times success_rate_stdev_factor (f.square_root variance)))

-- The first loop of `processSuccessRateEjections`: the monitors, the valid hosts and their sum.
pub record Rates : Type 0 where
  pub rated : List Monitor
  pub valid_hosts : List (ℕ × Double)
  pub rate_sum : Double

pub collect : Doubles → ℕ → List Monitor → Double → Rates
collect f volume [] sum = record { rated = []; valid_hosts = []; rate_sum = sum }
collect f volume (m ∷ ms) sum =
    let skipped = collect f volume ms sum in
    if m.failed_outlier_check
    then record skipped { rated = m ∷ skipped.rated }
    else elim (get_success_rate f volume m) [
      | none ↦ record skipped { rated = m ∷ skipped.rated }
      | some rate ↦
          let counted = collect f volume ms (f.plus sum rate) in
          record counted {
            rated = record m { host_success_rate = rate } ∷ counted.rated;
            valid_hosts = (m.host, rate) ∷ counted.valid_hosts;
          }
    ]

-- Its second loop.
pub eject_outliers : ℕ → Double → List (ℕ × Double) → Detector → Detector
unfolding eject_host
eject_outliers now threshold [] d = d
eject_outliers now threshold ((h, rate) ∷ hosts) d = eject_outliers now threshold hosts (
    if d.doubles.is_less rate threshold
    then eject_host now h success_rate (record d {
      stats = record (d.stats) { ejections_success_rate = inc64 d.stats.ejections_success_rate };
    })
    else d)

-- `processSuccessRateEjections`
pub process_success_rate_ejections : ℕ → Detector → Detector
unfolding success_rate_ejection_threshold_of collect eject_outliers
process_success_rate_ejections now d =
    let f = d.doubles in
    let minimum_hosts =
      get_integer d.runtime "outlier_detection.success_rate_minimum_hosts"
        d.config.success_rate_minimum_hosts in
    let request_volume =
      get_integer d.runtime "outlier_detection.success_rate_request_volume"
        d.config.success_rate_request_volume in
    let d₁ = record d {
      success_rate_average = f.minus_one;
      success_rate_ejection_threshold = f.minus_one;
    } in
    let rates = collect f request_volume d.monitors (f.from 0) in
    let stdev_factor =
      f.over
        (f.from (
          get_integer d.runtime "outlier_detection.success_rate_stdev_factor"
            d.config.success_rate_stdev_factor))
        (f.from 1000) in
    let (average, threshold) =
      success_rate_ejection_threshold_of f rates.rate_sum rates.valid_hosts stdev_factor in
    let d₂ = record d₁ { monitors = rates.rated } in
    if ltb (length d.monitors) minimum_hosts
    then d₁
    else if leb minimum_hosts (length rates.valid_hosts)
    then eject_outliers now threshold rates.valid_hosts
        (record d₂ { success_rate_average = average; success_rate_ejection_threshold = threshold })
    else d₂

-- `checkHostForUneject`, for a monitor of the detector. Without a time of ejection its `value()`
-- throws, which is `none`. The time that a host is to be out has no bound here; in the source it is a 64-bit
-- duration in nanoseconds.
pub check_host_for_uneject : ℕ → Monitor → Detector → Option (Monitor × Detector)
unfolding uneject
check_host_for_uneject now m d =
    if not m.failed_outlier_check then some (m, d) else elim m.last_ejection_time [
      | none ↦ none
      | some ejected ↦
          let base_eject_time =
            get_integer d.runtime "outlier_detection.base_ejection_time_ms"
              d.config.base_ejection_time_ms
            * 1000000 in
          if leb (base_eject_time * m.num_ejections) (now - ejected)
          then some (
            uneject now m,
            record d {
              stats = record (d.stats) { ejections_active = dec64 d.stats.ejections_active };
              called = m.host ∷ d.called;
            },
          )
          else some (m, d)
    ]

-- The loop of `onIntervalTimer`. It gives back the monitors that it has gone over.
pub check_hosts : ℕ → List Monitor → Detector → Option (List Monitor × Detector)
unfolding check_host_for_uneject update_current_bucket
check_hosts now [] d = some ([], d)
check_hosts now (m ∷ ms) d = do
  (m₁, d₁) ← check_host_for_uneject now m d
  (ms₁, d₂) ← check_hosts now ms d₁
  some (record (update_current_bucket m₁) { host_success_rate = d.doubles.minus_one } ∷ ms₁, d₂)

-- `onIntervalTimer`
pub on_interval_timer : ℕ → Detector → Option Detector
unfolding process_success_rate_ejections check_hosts
on_interval_timer now d = do
  (ms, d₁) ← check_hosts now d.monitors d
  some (process_success_rate_ejections now (record d₁ { monitors = ms }))

-- `addHostMonitor`. A host that is added has no monitor yet. Its flag stays as it is.
pub fresh_monitor : Doubles → ℕ → (failed_outlier_check : Bool) → Monitor
unfolding update_current_bucket
fresh_monitor f h failed_outlier_check = update_current_bucket (record {
  host = h;
  failed_outlier_check = failed_outlier_check;
  consecutive_5xx_count = 0;
  last_ejection_time = none;
  last_unejection_time = none;
  num_ejections = 0;
  current_bucket = record { success_request_counter = 0; total_request_counter = 0 };
  backup_bucket = record { success_request_counter = 0; total_request_counter = 0 };
  host_success_rate = f.minus_one;
})

pub add_host_monitor : ℕ → (failed_outlier_check : Bool) → Detector → Detector
unfolding fresh_monitor
add_host_monitor h failed_outlier_check d = record d {
  monitors = fresh_monitor d.doubles h failed_outlier_check ∷ d.monitors;
}

-- The loop over the removed hosts.
pub remove_host : ℕ → Detector → Detector
remove_host h d = elim (find_monitor h d.monitors) [
  | none ↦ d
  | some m ↦ record d {
    monitors = erase h d.monitors;
    stats = record (d.stats) {
      ejections_active =
          if m.failed_outlier_check
          then dec64 d.stats.ejections_active
          else d.stats.ejections_active;
    };
  }
]

-- `putHttpResponseCode` on the monitor of a host, and `onConsecutive5xx`.
pub responds : ℕ → ℕ → Detector → Detector
unfolding put_http_response_code
responds h code d = elim (find_monitor h d.monitors) [
  | none ↦ d
  | some m ↦ record d {
    monitors = at_host h (λ m. (put_http_response_code d code m).0) d.monitors;
    posted = if (put_http_response_code d code m).1 then d.posted ++ (h ∷ []) else d.posted;
  }
]

pub run_posted : ℕ → List ℕ → Detector → Detector
unfolding on_consecutive_5xx_worker
run_posted now [] d = d
run_posted now (h ∷ hs) d = on_consecutive_5xx_worker now h (record d { posted = hs })

pub step : Event → Detector → Option Detector
unfolding responds run_posted on_interval_timer add_host_monitor remove_host
step (host_responds h code) d = some (responds h code d)
step (main_thread_runs now) d = some (run_posted now d.posted d)
step (interval_passes now) d = on_interval_timer now d
step (host_added h failed_outlier_check) d = some (add_host_monitor h failed_outlier_check d)
step (host_removed h) d = some (remove_host h d)
