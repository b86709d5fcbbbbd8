-- ===== src/Device/Select.antt =====
-- src/rust/gdnd/gdnd-core/src/device/mod.rs: which device interface the program works with. The
-- constructors of the two drivers are arguments.
pub mod Choice
use gpu_dead_node_detector.Common.{Effect, ℕ, attempt, pure, ◌>>=◌, String, map_result, none}
use gpu_dead_node_detector.Device.{auto, nvidia, ascend, DeviceType, DeviceError, DeviceInterface}
use gpu_dead_node_detector.Device.Nvidia.{new_nvidia, nvidia_interface}
use gpu_dead_node_detector.Device.Ascend.{new_ascend, ascend_interface}
use gpu_dead_node_detector.Device.Mock.{mock_interface, new_mock}
use gpu_dead_node_detector.Device.Nvml.{Nvml}
use gpu_dead_node_detector.Device.System.{System, Regex}
use gpu_dead_node_detector.Device.AscendLogs.{LogFiles}
use gpu_dead_node_detector.Device.NpuSmi.{Floats}

-- `NvidiaDevice::new` and `AscendDevice::new`, and the clock of the mock device.
pub record Drivers (W : Type 0) : Type 0 where
  pub new_nvidia : Effect W DeviceError (DeviceInterface W)
  pub new_ascend : Effect W DeviceError (DeviceInterface W)
  pub now : W → ℕ

unfoldable pub create_device_interface :
    {W : Type 0} → Drivers W → DeviceType → Effect W DeviceError (DeviceInterface W)
create_device_interface drivers auto =
    attempt drivers.new_nvidia (λ device. pure device)
      (λ nvidia_err.
        attempt drivers.new_ascend (λ device. pure device)
          (λ ascend_err. pure (mock_interface drivers.now new_mock)))
create_device_interface drivers nvidia = do device ← drivers.new_nvidia; pure device
create_device_interface drivers ascend = do device ← drivers.new_ascend; pure device

-- What the drivers are made from.
pub record Platform (W : Type 0) : Type 0 where
  -- `Nvml::init`
  pub init : Effect W String (Nvml W)
  pub system : System W
  pub files : LogFiles W
  pub regex : Regex
  pub floats : Floats

-- The constructors that `create_device_interface` calls; the cell of NVML is empty before.
unfoldable pub drivers_of : {W : Type 0} → Platform W → Drivers W
drivers_of p = record {
  new_nvidia = λ w.
      let (r, (cell, v)) = new_nvidia p.init (none, w) in
      (map_result (nvidia_interface p.system p.regex) r, v);
  new_ascend = λ w.
      let (r, v) = new_ascend p.system w in
      (map_result (ascend_interface p.system p.files p.regex p.floats) r, v);
  now = p.system.now;
}
