-- ===== src/Upstream/OutlierDetection/State.antt =====
-- The state of outlier detection: envoy/envoy/source/common/upstream/outlier_detection_impl.h.
use meliproxy.Runtime.{Snapshot, Random}
use meliproxy.Shared.{List, Option, Bool, ℕ}

-- `SuccessRateAccumulatorBucket`
pub record Bucket : Type 0 where
  pub success_request_counter : ℕ
  pub total_request_counter : ℕ

-- A double by its bits, and the operations that the detector uses; `from` converts an integer.
abbrev pub Double : Type 0
Double = ℕ

pub record Doubles : Type 0 where
  pub from : ℕ → Double
  pub minus_one : Double
  pub plus : Double → Double → Double
  pub minus : Double → Double → Double
  pub times : Double → Double → Double
  pub over : Double → Double → Double
  pub square : Double → Double
  pub square_root : Double → Double
  pub is_less : Double → Double → Bool

-- `DetectorConfig`
pub record DetectorConfig : Type 0 where
  pub base_ejection_time_ms : ℕ
  pub consecutive_5xx : ℕ
  pub max_ejection_percent : ℕ
  pub success_rate_minimum_hosts : ℕ
  pub success_rate_request_volume : ℕ
  pub success_rate_stdev_factor : ℕ
  pub enforcing_consecutive_5xx : ℕ
  pub enforcing_success_rate : ℕ

pub data EjectionType : Type 0 where
  consecutive_5xx_responses success_rate : EjectionType

-- `DetectionStats`
pub record DetectionStats : Type 0 where
  pub ejections_total : ℕ
  pub ejections_active : ℕ
  pub ejections_overflow : ℕ
  pub ejections_consecutive_5xx : ℕ
  pub ejections_success_rate : ℕ

-- `DetectorHostMonitorImpl`, with the flag FAILED_OUTLIER_CHECK of its host. Responses are counted in
-- the current bucket.
pub record Monitor : Type 0 where
  pub host : ℕ
  pub failed_outlier_check : Bool
  pub consecutive_5xx_count : ℕ
  pub last_ejection_time : Option ℕ
  pub last_unejection_time : Option ℕ
  pub num_ejections : ℕ
  pub current_bucket : Bucket
  pub backup_bucket : Bucket
  pub host_success_rate : Double

-- `DetectorImpl`
pub record Detector : Type 0 where
  pub doubles : Doubles
  pub config : DetectorConfig
  pub runtime : Snapshot
  pub generator : Random
  pub stats : DetectionStats
  pub monitors : List Monitor
  pub posted : List ℕ
  pub called : List ℕ
  pub success_rate_average : Double
  pub success_rate_ejection_threshold : Double

-- What happens to a detector. The main thread takes what is posted in order. A host is added with the flag
-- FAILED_OUTLIER_CHECK that it has by then.
pub data Event : Type 0 where
  host_responds : ℕ → ℕ → Event
  main_thread_runs interval_passes : ℕ → Event
  host_added : ℕ → Bool → Event
  host_removed : ℕ → Event
