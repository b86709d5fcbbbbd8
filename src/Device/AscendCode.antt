-- ===== src/Device/AscendCode.antt =====
-- src/rust/gdnd/gdnd-core/src/device/ascend.rs: the error codes of an Ascend NPU.
pub mod Codes
use gpu_dead_node_detector.Common.{◌==◌, true, false, Bool, ℕ, String, if◌then◌else◌}

pub data AscendErrorCode : Type 0 where
  hbm_error ai_core_hang over_temperature pcie_link_error device_lost : AscendErrorCode
  ecc_uncorrectable unknown : AscendErrorCode

-- `AscendErrorCode::is_fatal`
unfoldable pub is_fatal_code : AscendErrorCode → Bool
is_fatal_code over_temperature = false
is_fatal_code unknown = false
is_fatal_code _ = true

-- `*self as u32`
unfoldable pub code : AscendErrorCode → ℕ
code hbm_error = 1001
code ai_core_hang = 1002
code over_temperature = 1003
code pcie_link_error = 1005
code device_lost = 1007
code ecc_uncorrectable = 1008
code unknown = 9999

unfoldable pub description : AscendErrorCode → String
description hbm_error = "HBM memory error"
description ai_core_hang = "AI Core hang"
description over_temperature = "Over temperature"
description pcie_link_error = "PCIe link error"
description device_lost = "Device lost"
description ecc_uncorrectable = "ECC uncorrectable error"
description unknown = "Unknown error"

unfoldable pub from_code : ℕ → AscendErrorCode
from_code c =
    if c == 1001
    then hbm_error
    else if c == 1002
    then ai_core_hang
    else if c == 1003
    then over_temperature
    else if c == 1005
    then pcie_link_error
    else if c == 1007
    then device_lost
    else if c == 1008
    then ecc_uncorrectable
    else unknown
