-- ===== src/Device/Ascend/Health.antt =====
-- What the Ascend driver says of a device's status, under the default configuration.
use gpu_dead_node_detector.Config.{default_config}
use gpu_dead_node_detector.Device.{is_fatal}
use gpu_dead_node_detector.Device.Ascend.{status_error, health_to_error}
use gpu_dead_node_detector.Device.AscendCode.{code}
use gpu_dead_node_detector.Common.{ℕ, List, any, ◌≡◌, false, ◌∷◌, arith, [], refl}
use gpu_dead_node_detector.Device.NpuSmi.{NpuDeviceInfo}

-- No error that npu-smi's status of a device leads to is fatal for the passive detector of the
-- default configuration: not even a lost device is condemned at once.
pub status_never_fatal :
    (now device_index : ℕ) (devices : List NpuDeviceInfo)
    → any (λ x. is_fatal x default_config.health.fatal_xids) (status_error now device_index devices)
      ≡ false
unfolding status_error health_to_error is_fatal code
status_never_fatal now device_index [] = refl
status_never_fatal now device_index (d ∷ devices) =
    ground (arith, status_never_fatal now device_index devices)
