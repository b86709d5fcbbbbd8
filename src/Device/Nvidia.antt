-- ===== src/Device/Nvidia.antt =====
-- src/rust/gdnd/gdnd-core/src/device/nvidia.rs: the NVIDIA driver, over NVML.
pub mod Checks
use mathlib.Core.Option
use gpu_dead_node_detector.Device.Nvml.{send, receive, Nvml, get_nvml}
use gpu_dead_node_detector.Common.{
  some, none, ok, err, ◌∷◌, ◌>>=◌, ℕ, Effect, String, Option, List, collect_some, result_cases,
  pure, parse_number, with_error, to_option, collect, true, u32_mod, range, or_else, [], decimal,
  trim, concat, if◌then◌else◌, lines, ◌/◌, ◌==◌,
}
use gpu_dead_node_detector.Device.{
  nvidia, nvml_init_error, query_error, device_not_found, io_error, DeviceError, DeviceId,
  DeviceInterface, XidError, DeviceMetrics, CheckResult, no_ecc_errors,
}
use gpu_dead_node_detector.Device.System.{System, Regex, Match}
use gpu_dead_node_detector.Device.Process.{active_check, pcie_test, waiting, find_waiting}

pub record NvidiaDevice (W : Type 0) : Type 0 where
  pub nvml : Nvml W
  pub gpu_check_path : String

unfoldable pub with_gpu_check_path :
    {W : Type 0}
    → Effect W String (Nvml W)
    → String
    → Effect (Option (Nvml W) × W) DeviceError (NvidiaDevice W)
unfolding get_nvml
with_gpu_check_path init path = do
  nvml ← get_nvml init
  pure (record { nvml = nvml; gpu_check_path = path })

-- `NvidiaDevice::new`
unfoldable pub new_nvidia :
    {W : Type 0}
    → Effect W String (Nvml W)
    → Effect (Option (Nvml W) × W) DeviceError (NvidiaDevice W)
unfolding with_gpu_check_path
new_nvidia init = with_gpu_check_path init "/usr/local/bin/gpu-check"

unfoldable pub get_xid_description : ℕ → String
get_xid_description code =
    if code == 13
    then "Graphics Engine Exception"
    else if code == 31
    then "GPU memory page fault"
    else if code == 32
    then "Invalid or corrupted push buffer stream"
    else if code == 38
    then "Driver firmware error"
    else if code == 43
    then "GPU stopped processing"
    else if code == 45
    then "Preemptive cleanup, due to previous errors"
    else if code == 48
    then "Double Bit ECC Error"
    else if code == 61
    then "Internal micro-controller breakpoint/warning"
    else if code == 62
    then "Internal micro-controller halt"
    else if code == 63
    then "ECC page retirement or row remapping recording event"
    else if code == 64
    then "ECC page retirement or row remapper recording failure"
    else if code == 68
    then "NVDEC0 Exception"
    else if code == 69
    then "Graphics Engine class error"
    else if code == 74
    then "NVLINK Error"
    else if code == 79
    then "GPU has fallen off the bus"
    else if code == 92
    then "High single-bit ECC error rate"
    else if code == 94
    then "Contained ECC error"
    else if code == 95
    then "Uncontained ECC error"
    else concat ("Unknown XID error (code: " ∷ decimal code ∷ ")" ∷ [])

abbrev pub xid_pattern : String
xid_pattern = "NVRM: Xid \\(PCI:([^)]+)\\): (\\d+),"

-- The errors in the text of `dmesg`, by the matches of the pattern.
unfoldable pub xid_errors : ℕ → ℕ → List Match → List XidError
unfolding get_xid_description
xid_errors now device_index matches =
    collect_some
      (λ cap.
        Option.map
          (λ code. record {
            code = code;
            message = get_xid_description code;
            timestamp = now;
            device_index = device_index;
          })
          (parse_number u32_mod (cap 2)))
      matches

-- The process numbers in the answer of nvidia-smi.
unfoldable pub compute_pids : String → List ℕ
compute_pids stdout = collect_some (λ line. parse_number u32_mod (trim line)) (lines stdout)

module _ {W : Type 0} (system : System W) (regex : Regex) (dev : NvidiaDevice W) where
  -- `.map_err(|e| …(e.to_string()))?` on a call of NVML
  abbrev query : {A : Type 0} → Effect W String A → Effect W DeviceError A
  query m = with_error query_error m

  -- One round of the loop of `list_devices`.
  unfoldable pub device_at : ℕ → Effect W DeviceError DeviceId
  device_at i = do
    handle ← query (dev.nvml.device_by_index i)
    name ← query (dev.nvml.name handle)
    uuid ← to_option (dev.nvml.uuid handle)
    pure (record { index = i; uuid = uuid; name = name })

  unfoldable pub list_devices : Effect W DeviceError (List DeviceId)
  unfolding device_at
  list_devices = do count ← query dev.nvml.device_count; collect device_at (range 0 count)

  unfoldable pub get_metrics : DeviceId → Effect W DeviceError DeviceMetrics
  get_metrics device = do
    handle ← with_error device_not_found (dev.nvml.device_by_index device.index)
    temperature ← or_else 0 (dev.nvml.temperature handle)
    rates ← or_else (0, 0) (dev.nvml.utilization_rates handle)
    power ← or_else 0 (dev.nvml.power_usage handle)
    limit ← or_else 0 (dev.nvml.power_management_limit handle)
    memory ←
        with_error (λ e. query_error (concat ("Failed to get memory info: " ∷ e ∷ [])))
          (dev.nvml.memory_info handle)
    tx ← to_option (dev.nvml.pcie_throughput handle send)
    rx ← to_option (dev.nvml.pcie_throughput handle receive)
    λ w. (
      ok (record {
        temperature = temperature;
        gpu_utilization = rates.0;
        memory_utilization = rates.1;
        power_usage = power / 1000;
        power_limit = limit / 1000;
        memory_total = memory.total;
        memory_used = memory.used;
        memory_free = memory.free;
        pcie_tx = tx;
        pcie_rx = rx;
        ecc_errors = no_ecc_errors;
        timestamp = system.now w;
      }),
      w,
    )

  unfoldable pub get_xid_errors : DeviceId → Effect W DeviceError (List XidError)
  unfolding xid_errors
  get_xid_errors device = do
    output ← with_error io_error (system.run "dmesg" ("-T" ∷ []))
    λ w. (
      ok (
          if output.success
          then xid_errors (system.now w) device.index
              (regex.captures_iter xid_pattern output.stdout)
          else []),
      w,
    )

  unfoldable pub check_zombie_processes : DeviceId → Effect W DeviceError (List ℕ)
  unfolding compute_pids
  check_zombie_processes device = do
    output ← with_error io_error (
        system.run "nvidia-smi" (
          "--query-compute-apps=pid"
          ∷ "--format=csv,noheader,nounits"
          ∷ "-i"
          ∷ decimal device.index
          ∷ []))
    if output.success then find_waiting system (compute_pids output.stdout) else pure []

  unfoldable pub run_active_check : DeviceId → ℕ → Effect W DeviceError CheckResult
  run_active_check device limit = active_check system dev.gpu_check_path device limit

  unfoldable pub run_pcie_test : DeviceId → Effect W DeviceError CheckResult
  run_pcie_test device =
      pcie_test system "bandwidthTest" ("--device" ∷ decimal device.index ∷ [])
        "bandwidthTest not found, PCIe test unavailable"

  -- `impl DeviceInterface for NvidiaDevice`
  unfoldable pub nvidia_interface : DeviceInterface W
  unfolding list_devices get_metrics get_xid_errors check_zombie_processes run_active_check
      run_pcie_test
  nvidia_interface = record {
    list_devices = list_devices;
    get_metrics = get_metrics;
    get_xid_errors = get_xid_errors;
    check_zombie_processes = check_zombie_processes;
    run_active_check = run_active_check;
    device_type = nvidia;
    supports_pcie_test = true;
    run_pcie_test = run_pcie_test;
  }
