-- ===== src/Device/Ascend.antt =====
-- src/rust/gdnd/gdnd-core/src/device/ascend.rs: the Ascend driver, over npu-smi, npu-check and the
-- logs. A path is a text; the letters of a health status are those of ASCII.
pub mod Health
use mathlib.Core.Option
use gpu_dead_node_detector.Common.{
  some, none, ok, err, ◌∷◌, ◌>>=◌, ◌==◌, ◌-◌, String, ℕ, List, Bool, Option, Effect, contains,
  collect_some, concat, if◌then◌else◌, parse_number, [], with_error, attempt, true, uppercase_is,
  u32_mod, ltb, pure, ◌++◌, ◌||◌, raise, map, decimal,
}
use gpu_dead_node_detector.Device.{
  ascend, other, io_error, query_error, DeviceId, XidError, DeviceMetrics, DeviceError,
  DeviceInterface, CheckResult, no_ecc_errors,
}
use gpu_dead_node_detector.Device.AscendCode.{
  over_temperature, device_lost, code, description, AscendErrorCode,
}
use gpu_dead_node_detector.Device.System.{Regex, System}
use gpu_dead_node_detector.Device.NpuSmi.{
  NpuDeviceInfo, Floats, NpuMetricsInfo, parse_device_metrics, parse_device_list,
}
use gpu_dead_node_detector.Device.AscendLogs.{LogFiles, parse_device_logs}
use gpu_dead_node_detector.Device.Process.{find_waiting, active_check, pcie_test}

pub record AscendDevice : Type 0 where
  pub npu_smi_path : String
  pub npu_check_path : String
  pub log_dir : String
  pub fatal_error_codes : List ℕ

unfoldable pub is_error_fatal : AscendDevice → ℕ → Bool
is_error_fatal dev c = contains dev.fatal_error_codes c

-- `health_to_error`
unfoldable pub health_to_error : String → Option AscendErrorCode
health_to_error health =
    if uppercase_is health "OK"
    then none
    else if uppercase_is health "WARNING"
    then some over_temperature
    else if uppercase_is health "ERROR" || uppercase_is health "FAULT"
    then some device_lost
    else none

-- The error that the status of the asked device shows: the first device of its index decides.
unfoldable pub status_error : ℕ → ℕ → List NpuDeviceInfo → List XidError
unfolding health_to_error
status_error now device_index [] = []
status_error now device_index (d ∷ devices) =
    if d.index == device_index
    then elim (health_to_error d.health) [
      | none ↦ []
      | some e ↦
          record {
            code = code e;
            message = description e;
            timestamp = now;
            device_index = device_index;
          }
          ∷ []
    ]
    else status_error now device_index devices

-- The process numbers in the answer of npu-smi.
unfoldable pub usage_pids : Regex → String → List ℕ
usage_pids regex output =
    collect_some (λ cap. parse_number u32_mod (cap 1))
      (regex.captures_iter "\\bPID[:\\s]+(\\d+)" output)

unfoldable pub to_device_id : NpuDeviceInfo → DeviceId
to_device_id d = record {
  index = d.index;
  uuid = d.bus_id;
  name = concat ("Ascend " ∷ d.name ∷ []);
}

unfoldable pub to_metrics : Floats → ℕ → NpuMetricsInfo → DeviceMetrics
to_metrics floats now m = record {
  temperature = m.temperature;
  gpu_utilization = m.aicore_util;
  memory_utilization = if ltb 0 m.hbm_total then floats.percent m.hbm_used m.hbm_total else 0;
  power_usage = m.power;
  power_limit = 0;
  memory_total = m.hbm_total;
  memory_used = m.hbm_used;
  memory_free = m.hbm_total - m.hbm_used;
  pcie_tx = none;
  pcie_rx = none;
  ecc_errors = no_ecc_errors;
  timestamp = now;
}

module _ {W : Type 0} (system : System W) where
  -- `AscendDevice::with_config`
  unfoldable pub with_config : String → String → String → List ℕ → Effect W DeviceError AscendDevice
  with_config npu_smi_path npu_check_path log_dir fatal_error_codes w =
      let (exists, v) = system.path_exists npu_smi_path w in
      if exists
      then (
        ok (record {
          npu_smi_path = npu_smi_path;
          npu_check_path = npu_check_path;
          log_dir = log_dir;
          fatal_error_codes = fatal_error_codes;
        }),
        v,
      )
      else (err (other (concat ("npu-smi not found at " ∷ npu_smi_path ∷ []))), v)

  unfoldable pub new_ascend : Effect W DeviceError AscendDevice
  unfolding with_config
  new_ascend =
      with_config "/usr/local/bin/npu-smi" "/usr/local/bin/npu-check" "/var/log/npu/slog"
        (1001 ∷ 1002 ∷ 1005 ∷ 1007 ∷ 1008 ∷ [])

module _ {W : Type 0} (system : System W) (files : LogFiles W) (regex : Regex) (floats : Floats)
    (dev : AscendDevice) where
  unfoldable pub run_npu_smi : List String → Effect W DeviceError String
  run_npu_smi args = do
    output ← with_error io_error (system.run dev.npu_smi_path args)
    if output.success
        then pure output.stdout
        else raise (query_error (concat ("npu-smi failed: " ∷ output.stderr ∷ [])))

  unfoldable pub list_devices : Effect W DeviceError (List DeviceId)
  unfolding run_npu_smi to_device_id
  list_devices = do
    output ← run_npu_smi ("info" ∷ [])
    pure (map to_device_id (parse_device_list regex output))

  unfoldable pub get_metrics : DeviceId → Effect W DeviceError DeviceMetrics
  unfolding run_npu_smi to_metrics
  get_metrics device = do
    output ← run_npu_smi ("info" ∷ [])
    λ w. (
      ok (to_metrics floats (system.now w) (parse_device_metrics regex floats output device.index)),
      w,
    )

  -- The errors of the logs, and behind them that of the status.
  unfoldable pub get_xid_errors : DeviceId → Effect W DeviceError (List XidError)
  unfolding run_npu_smi status_error
  get_xid_errors device w =
      let (errors, v) = parse_device_logs system files regex dev.log_dir device.index w in
      (run_npu_smi ("info" ∷ []) >>= λ output u.
      (ok (errors ++ status_error (system.now u) device.index (parse_device_list regex output)), u))
        v

  unfoldable pub check_zombie_processes : DeviceId → Effect W DeviceError (List ℕ)
  unfolding run_npu_smi usage_pids
  check_zombie_processes device =
      attempt (run_npu_smi ("info" ∷ "-t" ∷ "usages" ∷ []))
        (λ output. find_waiting system (usage_pids regex output)) (λ e. pure [])

  unfoldable pub run_active_check : DeviceId → ℕ → Effect W DeviceError CheckResult
  run_active_check device limit = active_check system dev.npu_check_path device limit

  unfoldable pub run_pcie_test : DeviceId → Effect W DeviceError CheckResult
  run_pcie_test device =
      pcie_test system dev.npu_check_path ("-d" ∷ decimal device.index ∷ "--pcie-test" ∷ [])
        "npu-check not found, PCIe test unavailable"

  -- `impl DeviceInterface for AscendDevice`
  unfoldable pub ascend_interface : DeviceInterface W
  unfolding list_devices get_metrics get_xid_errors check_zombie_processes run_active_check
      run_pcie_test
  ascend_interface = record {
    list_devices = list_devices;
    get_metrics = get_metrics;
    get_xid_errors = get_xid_errors;
    check_zombie_processes = check_zombie_processes;
    run_active_check = run_active_check;
    device_type = ascend;
    supports_pcie_test = true;
    run_pcie_test = run_pcie_test;
  }
