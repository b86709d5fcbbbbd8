-- ===== src/Tests/Conformance/Program.antt =====
-- The tests of gdnd/src/config.rs, and of gdnd-core/src/scheduler.rs. The one about YAML is a function
-- of the reader, which is serde's, and is checked with a reader that knows its text.
use gpu_dead_node_detector.Common.{◌==◌, str_eq, Result, err, if◌then◌else◌, String, false}
use gpu_dead_node_detector.Device.{Error, message}
use gpu_dead_node_detector.Config.{Config, DeviceType, nvidia, from_yaml, default_metrics}
use gpu_dead_node_detector.Tests.Conformance.{answered}
use gpu_dead_node_detector.Common.{concat, decimal}
use gpu_dead_node_detector.Health
use gpu_dead_node_detector.Detection.Passive
use gpu_dead_node_detector.Detection.Active
use gpu_dead_node_detector.Common.{for_each, collect, lookup, insert}
use gpu_dead_node_detector.Device.{success}
use gpu_dead_node_detector.Device.Mock.{with_device_count, mock_id, mock_metrics, mock_check}
use gpu_dead_node_detector.Detection.{pass}
use gpu_dead_node_detector.Detection.Passive.{conclude, metrics_findings}
use gpu_dead_node_detector.Detection.Active.{active_verdict}
use gpu_dead_node_detector.Scheduler.{
  run_l1_detection, run_l2_detection, run_l3_detection, handle_all, handle, process_result, judge,
  update_metrics, failure_updates,
}
use gpu_dead_node_detector.Health.{
  event_of, transition, step, dispatch, get_or_create, new_health, get, device_key, state_eq,
  no_change,
}
use gpu_dead_node_detector.Common.{
  ◌∷◌, [], true, contains, is_ok, ◌≡◌, refl, ok, none, ◌+◌, ℕ, Bool,
}
use gpu_dead_node_detector.Config.{default_config, validate}
use gpu_dead_node_detector.Device.Mock.{mock_interface, new_mock}
use gpu_dead_node_detector.Device.System.{System}
use gpu_dead_node_detector.Scheduler.{IsolationExecutor, new_scheduler, run_once, State}
use gpu_dead_node_detector.Health.{new_manager}
use gpu_dead_node_detector.Tests.Fixtures.{clock}
use gpu_dead_node_detector.Tests.Conformance.{asserts}
use gpu_dead_node_detector.Device.{DeviceInterface}

abbrev test_default_config : Bool
test_default_config = asserts (is_ok (validate default_config) ∷ [])

abbrev test_fatal_xids : Bool
test_fatal_xids =
    let fatal_xids = default_config.health.fatal_xids in
    asserts (
      contains fatal_xids 31
      ∷ contains fatal_xids 43
      ∷ contains fatal_xids 48
      ∷ contains fatal_xids 79
      ∷ [])

abbrev yaml : String
yaml =
    "\ndevice_type: nvidia\nl1_interval: 30s\nl2_interval: 5m\n\nhealth:\n  failure_threshold: 3\n  fatal_xids: [31, 43, 48, 79]\n  temperature_threshold: 85\n  active_check_timeout: 5s\n\nisolation:\n  cordon: true\n  evict_pods: false\n  taint_key: nvidia.com/gpu-health\n  taint_value: failed\n  taint_effect: NoSchedule\n\nmetrics:\n  enabled: true\n  port: 9100\n"

-- Whether a type of devices is NVIDIA's.
abbrev is_nvidia : DeviceType → Bool
is_nvidia nvidia = true
is_nvidia _ = false

abbrev test_parse_yaml : (String → Result Error Config) → Bool
test_parse_yaml parse = answered (from_yaml parse yaml) (λ config.
    is_nvidia config.device_type
    ∷ (config.l1_interval == 30000000000)
    ∷ (config.l2_interval == 300000000000)
    ∷ is_ok (validate config)
    ∷ [])

-- What the text says, field by field; what it leaves out has its default.
abbrev written : Config
written = record default_config {
  device_type = nvidia;
  l1_interval = 30000000000;
  l2_interval = 300000000000;
  health = record {
    failure_threshold = 3;
    fatal_xids = 31 ∷ 43 ∷ 48 ∷ 79 ∷ [];
    temperature_threshold = 85;
    active_check_timeout = 5000000000;
  };
  isolation = record {
    cordon = true;
    evict_pods = false;
    taint_key = "nvidia.com/gpu-health";
    taint_value = "failed";
    taint_effect = "NoSchedule";
  };
  metrics = record default_metrics { enabled = true; port = 9100 };
}

abbrev reader : String → Result Error Config
reader text = if str_eq text yaml then ok written else err (message "unknown text")

-- The calls of the executor are counted in the world.
abbrev mock_executor : IsolationExecutor ℕ
mock_executor = record { execute = λ done call_count. (ok tt, call_count + 1) }

abbrev idle : System ℕ
idle = record {
  run = λ name args w. (ok (record { success = true; code = none; stdout = ""; stderr = "" }), w);
  run_within = λ limit name args w. (none, w);
  read_to_string = λ path w. (ok "", w);
  path_exists = λ path w. (true, w);
  elapsed = λ w. 0;
  now = λ w. 0;
}

abbrev test_scheduler_run_once : Bool
test_scheduler_run_once =
    let device : DeviceInterface ℕ = mock_interface (λ w. 0) new_mock in
    let scheduler =
      new_scheduler
        (record {
          device = device;
          temperature_threshold = 85;
          fatal_xids = 31 ∷ 43 ∷ 48 ∷ 79 ∷ [];
        })
        (record {
          device = device;
          gpu_check_path = "/usr/local/bin/gpu-check";
          timeout = 5000000000;
        })
        mock_executor 30000000000 300000000000 idle (λ w. clock) in
    let start : State ℕ = record {
      manager = new_manager 3 (31 ∷ 43 ∷ 48 ∷ 79 ∷ []);
      updates = [];
      world = 0;
    } in
    is_ok (run_once scheduler start).0

config_tests : asserts (test_default_config ∷ test_parse_yaml reader ∷ test_fatal_xids ∷ []) ≡ true
unfolding validate from_yaml
config_tests = refl

scheduler_tests : asserts (test_scheduler_run_once ∷ []) ≡ true
unfolding run_once new_scheduler run_l1_detection run_l2_detection run_l3_detection handle_all
    handle process_result judge update_metrics failure_updates for_each Passive.detect_all
    Active.detect_all Passive.detect Active.detect conclude metrics_findings active_verdict pass
    collect mock_interface new_mock with_device_count mock_id mock_metrics mock_check success
    new_manager Health.process_result event_of transition step dispatch get_or_create new_health get
    device_key lookup insert state_eq no_change concat decimal
scheduler_tests = refl
