-- ===== src/Device/Nvml.antt =====
-- NVML as src/rust/gdnd/gdnd-core/src/device/nvidia.rs uses it. The library is not the
-- repository's code: it is a record of its calls, whose errors are shown by their texts.

use gpu_dead_node_detector.Device.{nvml_init_error, DeviceError}
use gpu_dead_node_detector.Common.{some, none, ok, err, ℕ, Effect, String, Option, result_cases}

pub record MemoryInfo : Type 0 where
  pub total : ℕ
  pub used : ℕ
  pub free : ℕ

pub data PcieUtilCounter : Type 0 where
  send receive : PcieUtilCounter

-- The calls of NVML that are used; a device of NVML is named by its index.
pub record Nvml (W : Type 0) : Type 0 where
  pub device_count : Effect W String ℕ
  pub device_by_index : ℕ → Effect W String ℕ
  pub name : ℕ → Effect W String String
  pub uuid : ℕ → Effect W String String
  pub temperature : ℕ → Effect W String ℕ
  pub utilization_rates : ℕ → Effect W String (ℕ × ℕ)
  pub power_usage : ℕ → Effect W String ℕ
  pub power_management_limit : ℕ → Effect W String ℕ
  pub memory_info : ℕ → Effect W String MemoryInfo
  pub pcie_throughput : ℕ → PcieUtilCounter → Effect W String ℕ

-- The global cell `NVML`, and `Nvml::init`.
unfoldable pub get_nvml :
    {W : Type 0} → Effect W String (Nvml W) → Effect (Option (Nvml W) × W) DeviceError (Nvml W)
get_nvml init (some nvml, w) = (ok nvml, (some nvml, w))
get_nvml init (none, w) =
    let (r, w') = init w in
    result_cases (λ nvml. (ok nvml, (some nvml, w'))) (λ e. (err (nvml_init_error e), (none, w'))) r
