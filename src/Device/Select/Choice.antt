-- ===== src/Device/Select/Choice.antt =====
-- Which device is chosen.
-- What the answers of the two drivers lead to.
use gpu_dead_node_detector.Device.{auto, nvidia, ascend, DeviceType, DeviceError, DeviceInterface}
use gpu_dead_node_detector.Device.Select.{create_device_interface, Drivers}
use gpu_dead_node_detector.Common.{Result, ok, err, ◌≡◌, arith}
use gpu_dead_node_detector.Device.Mock.{mock_interface, new_mock}

abbrev pub chosen :
    {W : Type 0}
    → DeviceType
    → Result DeviceError (DeviceInterface W)
    → Result DeviceError (DeviceInterface W)
    → DeviceInterface W
    → Result DeviceError (DeviceInterface W)
chosen auto (ok n) a mock = ok n
chosen auto (err e) (ok a) mock = ok a
chosen auto (err e) (err f) mock = ok mock
chosen nvidia n a mock = n
chosen ascend n a mock = a

-- Where the Ascend driver is asked: after the other, or at once.
abbrev pub asked : {W : Type 0} → DeviceType → W → W → W
asked auto v w = v
asked nvidia v w = w
asked ascend v w = w

-- With `auto` the NVIDIA driver is used if it starts, else the Ascend driver if that starts, else the
-- mock device: the choice never fails. A type that is named is used or its error is returned.
pub create_device_interface_lem :
    {W : Type 0} (drivers : Drivers W) (t : DeviceType) (w : W)
    → let n = drivers.new_nvidia w in
      (create_device_interface drivers t w).0
      ≡ chosen t n.0 (drivers.new_ascend (asked t n.1 w)).0 (mock_interface drivers.now new_mock)
unfolding create_device_interface
create_device_interface_lem drivers t w = ground arith
