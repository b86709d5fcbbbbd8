-- ===== src/Device/Mock.antt =====
-- src/rust/gdnd/gdnd-core/src/device/mock.rs: the mock device. Its atomics and locks are fields; the
-- setters, which tests call, return the changed device, and the interface reads the fields.
pub mod Checks
use gpu_dead_node_detector.Common.{
  List, ℕ, Bool, [], String, false, ◌++◌, if◌then◌else◌, some, concat, ◌∷◌, pure, suc, ltb, decimal,
  leb, zero, length, ◌%◌, u32_mod, err, ok, keep, ◌==◌, true, map, range,
}
use gpu_dead_node_detector.Device.{
  nvidia, success, failure, device_not_found, DeviceId, DeviceMetrics, DeviceInterface, XidError,
  no_ecc_errors, CheckResult,
}

pub record MockDevice : Type 0 where
  pub devices : List DeviceId
  pub fail_active_check : Bool
  pub fail_pcie_test : Bool
  pub xid_errors : List XidError
  pub temperature : ℕ
  pub zombie_pids : List ℕ

-- `format!("{:04}", i)`
unfoldable pub four_digits : ℕ → String
four_digits i =
    let zeros =
      if ltb i 10 then "000" else if ltb i 100 then "00" else if ltb i 1000 then "0" else "" in
    concat (zeros ∷ decimal i ∷ [])

unfoldable pub mock_id : ℕ → DeviceId
unfolding four_digits
mock_id i = record {
  index = i;
  uuid = some (concat ("GPU-MOCK-" ∷ four_digits i ∷ []));
  name = concat ("Mock GPU " ∷ decimal i ∷ []);
}

unfoldable pub with_device_count : ℕ → MockDevice
with_device_count count = record {
  devices = map mock_id (range 0 count);
  fail_active_check = false;
  fail_pcie_test = false;
  xid_errors = [];
  temperature = 45;
  zombie_pids = [];
}

-- `MockDevice::new`
unfoldable pub new_mock : MockDevice
new_mock = with_device_count 2

unfoldable pub set_fail_active_check : MockDevice → Bool → MockDevice
set_fail_active_check m fail = record m { fail_active_check = fail }

unfoldable pub set_fail_pcie_test : MockDevice → Bool → MockDevice
set_fail_pcie_test m fail = record m { fail_pcie_test = fail }

unfoldable pub add_xid_error : ℕ → MockDevice → ℕ → ℕ → MockDevice
add_xid_error now m code device_index = record m {
  xid_errors =
      m.xid_errors
      ++ record {
        code = code;
        message = concat ("Mock XID error " ∷ decimal code ∷ []);
        timestamp = now;
        device_index = device_index;
      }
        ∷ [];
}

unfoldable pub clear_xid_errors : MockDevice → MockDevice
clear_xid_errors m = record m { xid_errors = [] }

unfoldable pub set_temperature : MockDevice → ℕ → MockDevice
set_temperature m temp = record m { temperature = temp }

unfoldable pub add_zombie_pid : MockDevice → ℕ → MockDevice
add_zombie_pid m pid = record m { zombie_pids = m.zombie_pids ++ pid ∷ [] }

unfoldable pub clear_zombie_pids : MockDevice → MockDevice
clear_zombie_pids m = record m { zombie_pids = [] }

unfoldable pub mock_metrics : ℕ → MockDevice → DeviceMetrics
mock_metrics now m = record {
  temperature = m.temperature;
  gpu_utilization = 25;
  memory_utilization = 30;
  power_usage = 150;
  power_limit = 300;
  memory_total = 17179869184;
  memory_used = 4294967296;
  memory_free = 12884901888;
  pcie_tx = some 1000;
  pcie_rx = some 1000;
  ecc_errors = no_ecc_errors;
  timestamp = now;
}

-- A simulated check of ten milliseconds, or a hundred.
unfoldable pub mock_check : Bool → ℕ → String → CheckResult
unfolding success failure
mock_check fails duration error =
    if fails then failure duration error (some 1) else success duration

module _ {W : Type 0} (now : W → ℕ) where
  unfoldable pub mock_interface : MockDevice → DeviceInterface W
  unfolding mock_metrics mock_check
  mock_interface m = record {
    list_devices = pure m.devices;
    get_metrics = λ d w.
        if leb (length m.devices % u32_mod) d.index
        then (err (device_not_found (concat ("Device " ∷ decimal d.index ∷ " not found" ∷ []))), w)
        else (ok (mock_metrics (now w) m), w);
    get_xid_errors = λ d. pure (keep (λ e. e.device_index == d.index) m.xid_errors);
    check_zombie_processes = λ d. pure m.zombie_pids;
    run_active_check =
        λ d limit. pure (mock_check m.fail_active_check 10000000 "Mock active check failure");
    device_type = nvidia;
    supports_pcie_test = true;
    run_pcie_test = λ d. pure (
        mock_check m.fail_pcie_test 100000000
          "PCIe bandwidth degradation detected: 4.5 GB/s (expected 12+ GB/s)");
  }
