-- ===== src/Config.antt =====
-- src/rust/gdnd/gdnd/src/config.rs: the configuration, its defaults and its validation. What reads
-- YAML is a parameter. A duration is in nanoseconds.
pub mod Rules
use gpu_dead_node_detector.Device.{Error, message, context, from_io}
use gpu_dead_node_detector.Common.{
  ◌==◌, ◌&&◌, ◌||◌, if◌then◌else◌, ok, err, ◌∷◌, none, ℕ, Bool, Option, [], true, false, Result,
  List, String, ltb, is_none, result_cases, concat, Effect, ◌>>=◌, with_error,
}
use Prim.Native.Nat.{◌*◌}
use gpu_dead_node_detector.Device.System.{System}

pub data DeviceType : Type 0 where
  auto nvidia ascend : DeviceType

pub record HealthConfig : Type 0 where
  pub failure_threshold : ℕ
  pub fatal_xids : List ℕ
  pub temperature_threshold : ℕ
  pub active_check_timeout : ℕ

pub record IsolationConfig : Type 0 where
  pub cordon : Bool
  pub evict_pods : Bool
  pub taint_key : String
  pub taint_value : String
  pub taint_effect : String

pub record MetricsConfig : Type 0 where
  pub enabled : Bool
  pub port : ℕ
  pub path : String

pub data HealingStrategy : Type 0 where
  conservative moderate aggressive : HealingStrategy

pub record HealingConfig : Type 0 where
  pub enabled : Bool
  pub strategy : HealingStrategy
  pub dry_run : Bool
  pub timeout : ℕ

pub record RecoveryConfig : Type 0 where
  pub enabled : Bool
  pub threshold : ℕ
  pub interval : ℕ

pub record Config : Type 0 where
  pub device_type : DeviceType
  pub node_name : Option String
  pub l1_interval : ℕ
  pub l2_interval : ℕ
  pub l3_interval : ℕ
  pub l3_enabled : Bool
  pub gpu_check_path : String
  pub health : HealthConfig
  pub isolation : IsolationConfig
  pub metrics : MetricsConfig
  pub healing : HealingConfig
  pub recovery : RecoveryConfig
  pub dry_run : Bool

-- `Duration::from_secs`
abbrev pub seconds : ℕ → ℕ
seconds n = n * 1000000000

-- The default values, which `Default` and serde, for a field that the file leaves out, both use.
abbrev pub default_failure_threshold : ℕ
default_failure_threshold = 3

abbrev pub default_fatal_xids : List ℕ
default_fatal_xids = 31 ∷ 43 ∷ 48 ∷ 79 ∷ []

abbrev pub default_temperature_threshold : ℕ
default_temperature_threshold = 85

abbrev pub default_active_check_timeout : ℕ
default_active_check_timeout = seconds 5

abbrev pub default_l1_interval : ℕ
default_l1_interval = seconds 30

abbrev pub default_l2_interval : ℕ
default_l2_interval = seconds 300

abbrev pub default_l3_interval : ℕ
default_l3_interval = seconds 86400

abbrev pub default_gpu_check_path : String
default_gpu_check_path = "/usr/local/bin/gpu-check"

abbrev pub default_taint_key : String
default_taint_key = "nvidia.com/gpu-health"

abbrev pub default_taint_value : String
default_taint_value = "failed"

abbrev pub default_taint_effect : String
default_taint_effect = "NoSchedule"

abbrev pub default_metrics_port : ℕ
default_metrics_port = 9100

abbrev pub default_metrics_path : String
default_metrics_path = "/metrics"

abbrev pub default_healing_timeout : ℕ
default_healing_timeout = seconds 30

abbrev pub default_recovery_threshold : ℕ
default_recovery_threshold = 5

abbrev pub default_recovery_interval : ℕ
default_recovery_interval = seconds 300

abbrev pub default_health : HealthConfig
default_health = record {
  failure_threshold = default_failure_threshold;
  fatal_xids = default_fatal_xids;
  temperature_threshold = default_temperature_threshold;
  active_check_timeout = default_active_check_timeout;
}

abbrev pub default_isolation : IsolationConfig
default_isolation = record {
  cordon = true;
  evict_pods = false;
  taint_key = default_taint_key;
  taint_value = default_taint_value;
  taint_effect = default_taint_effect;
}

abbrev pub default_metrics : MetricsConfig
default_metrics = record {
  enabled = true;
  port = default_metrics_port;
  path = default_metrics_path;
}

abbrev pub default_healing : HealingConfig
default_healing = record {
  enabled = false;
  strategy = conservative;
  dry_run = false;
  timeout = default_healing_timeout;
}

abbrev pub default_recovery : RecoveryConfig
default_recovery = record {
  enabled = false;
  threshold = default_recovery_threshold;
  interval = default_recovery_interval;
}

abbrev pub default_config : Config
default_config = record {
  device_type = auto;
  node_name = none;
  l1_interval = default_l1_interval;
  l2_interval = default_l2_interval;
  l3_interval = default_l3_interval;
  l3_enabled = false;
  gpu_check_path = default_gpu_check_path;
  health = default_health;
  isolation = default_isolation;
  metrics = default_metrics;
  healing = default_healing;
  recovery = default_recovery;
  dry_run = false;
}

-- `Config::from_yaml`, over `serde_yaml::from_str`, which is not the repository's code.
unfoldable pub from_yaml : (String → Result Error Config) → String → Result Error Config
from_yaml parse yaml =
    result_cases ok (λ e. err (context "Failed to parse YAML configuration" e)) (parse yaml)

-- A path as `{:?}` prints it, where none of its characters is escaped.
abbrev pub debug_path : String → String
debug_path path = concat ("\"" ∷ path ∷ "\"" ∷ [])

unfoldable pub from_file :
    {W : Type 0} → System W → (String → Result Error Config) → String → Effect W Error Config
unfolding from_yaml
from_file system parse path = do
  content ←
      with_error
        (λ e. context (concat ("Failed to read config file: " ∷ debug_path path ∷ [])) (from_io e))
        (system.read_to_string path)
  λ w. (from_yaml parse content, w)

-- The rules in their order; the first that is broken is the error.
unfoldable pub validate : Config → Result Error (Unit {0})
validate c =
    if c.health.failure_threshold == 0
    then err (message "failure_threshold must be > 0")
    else if c.health.temperature_threshold == 0 || ltb 150 c.health.temperature_threshold
    then err (message "temperature_threshold must be between 1 and 150")
    else if c.l1_interval == 0
    then err (message "l1_interval must be > 0")
    else if c.l2_interval == 0
    then err (message "l2_interval must be > 0")
    else if c.metrics.enabled && c.metrics.port == 0
    then err (message "metrics.port must be > 0 when metrics are enabled")
    else ok tt

-- The environment variable NODE_NAME is an argument.
unfoldable pub with_node_name_from_env : Option String → Config → Config
with_node_name_from_env env c = if is_none c.node_name then record c { node_name = env } else c
