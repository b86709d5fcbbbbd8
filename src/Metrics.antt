-- ===== src/Metrics.antt =====
-- src/rust/gdnd/gdnd-core/src/metrics.rs. The Prometheus registry is not the repository's code:
-- what the program does to it is a list of updates. A duration is in nanoseconds, a gauge's f64 a
-- number.
pub mod Gauges
pub mod Labels
use gpu_dead_node_detector.Health.{HealthState, healthy, suspected, unhealthy, isolated}
use gpu_dead_node_detector.Common.{ℕ, String, decimal, get_or, List, ◌∷◌, [], map, ◌*◌}
use gpu_dead_node_detector.Device.{DeviceId}

-- What a metric is registered with.
pub record Metric : Type 0 where
  pub name : String
  pub help : String
  pub labels : List String

abbrev pub gpu_status_vec : Metric
gpu_status_vec = record {
  name = "gdnd_gpu_status";
  help = "GPU health status";
  labels = "gpu" ∷ "uuid" ∷ "name" ∷ [];
}

abbrev pub gpu_temperature_vec : Metric
gpu_temperature_vec = record {
  name = "gdnd_gpu_temperature_celsius";
  help = "GPU temperature in Celsius";
  labels = "gpu" ∷ [];
}

abbrev pub gpu_utilization_vec : Metric
gpu_utilization_vec = record {
  name = "gdnd_gpu_utilization_percent";
  help = "GPU utilization percentage";
  labels = "gpu" ∷ [];
}

abbrev pub gpu_memory_used_vec : Metric
gpu_memory_used_vec = record {
  name = "gdnd_gpu_memory_used_bytes";
  help = "GPU memory used in bytes";
  labels = "gpu" ∷ [];
}

abbrev pub check_duration_vec : Metric
check_duration_vec = record {
  name = "gdnd_check_duration_seconds";
  help = "Duration of detection checks";
  labels = "level" ∷ "gpu" ∷ [];
}

abbrev pub check_failures_vec : Metric
check_failures_vec = record {
  name = "gdnd_check_failures_total";
  help = "Total number of detection failures";
  labels = "level" ∷ "gpu" ∷ "reason" ∷ [];
}

abbrev pub isolation_actions_vec : Metric
isolation_actions_vec = record {
  name = "gdnd_isolation_actions_total";
  help = "Total number of isolation actions";
  labels = "action" ∷ [];
}

abbrev pub gpu_count_gauge : Metric
gpu_count_gauge = record { name = "gdnd_gpu_count"; help = "Number of GPUs detected"; labels = [] }

-- The bounds of the buckets of the durations.
abbrev pub duration_buckets : List ℕ
duration_buckets =
    map (λ milliseconds. milliseconds * 1000000)
      (1 ∷ 5 ∷ 10 ∷ 25 ∷ 50 ∷ 100 ∷ 250 ∷ 500 ∷ 1000 ∷ 2500 ∷ 5000 ∷ [])

-- The metrics that `MetricsRegistry::new` registers, in its order.
abbrev pub registered : List Metric
registered =
    gpu_status_vec ∷ gpu_temperature_vec ∷ gpu_utilization_vec ∷ gpu_memory_used_vec
    ∷ check_duration_vec ∷ check_failures_vec ∷ isolation_actions_vec ∷ gpu_count_gauge ∷ []

pub data Update : Type 0 where
  gpu_count : ℕ → Update
  -- labels gpu, uuid and name
  gpu_status : String → String → String → ℕ → Update
  gpu_temperature gpu_utilization gpu_memory_used : String → ℕ → Update
  -- labels level and gpu
  check_duration : String → String → ℕ → Update
  -- labels level, gpu and reason
  check_failure : String → String → String → Update
  isolation_action : String → Update

unfoldable pub status_value : HealthState → ℕ
status_value healthy = 0
status_value suspected = 1
status_value unhealthy = 2
status_value isolated = 3

unfoldable pub set_gpu_count : ℕ → Update
set_gpu_count count = gpu_count count

unfoldable pub set_gpu_status : DeviceId → HealthState → Update
set_gpu_status d state = gpu_status (decimal d.index) (get_or d.uuid "") d.name (status_value state)

unfoldable pub set_gpu_temperature : DeviceId → ℕ → Update
set_gpu_temperature d temp = gpu_temperature (decimal d.index) temp

unfoldable pub set_gpu_utilization : DeviceId → ℕ → Update
set_gpu_utilization d util = gpu_utilization (decimal d.index) util

unfoldable pub set_gpu_memory_used : DeviceId → ℕ → Update
set_gpu_memory_used d bytes = gpu_memory_used (decimal d.index) bytes

unfoldable pub observe_check_duration : String → DeviceId → ℕ → Update
observe_check_duration level d duration = check_duration level (decimal d.index) duration

unfoldable pub inc_check_failure : String → DeviceId → String → Update
inc_check_failure level d reason = check_failure level (decimal d.index) reason

unfoldable pub inc_isolation_action : String → Update
inc_isolation_action action = isolation_action action
