-- ===== src/Detection/Pcie.antt =====
-- src/rust/gdnd/gdnd-core/src/detection/l3_pcie.rs. The bandwidth, an f64 of GB/s, is in
-- hundredths.
pub mod Verdict
use gpu_dead_node_detector.Device.{DeviceInterface, DeviceId, CheckResult, DeviceError}
use gpu_dead_node_detector.Common.{
  ℕ, true, Bool, Effect, String, List, if◌then◌else◌, not, get_or, pure, ◌&&◌, [], false, ◌∷◌,
  ◌>>=◌, collect,
}
use gpu_dead_node_detector.Detection.{
  DetectionResult, fail, l3_pcie, pass, new_finding, pcie_degradation_type,
}

pub record L3PcieConfig : Type 0 where
  pub min_bandwidth_gbps : ℕ
  pub skip_if_unsupported : Bool

abbrev pub default_pcie_config : L3PcieConfig
default_pcie_config = record { min_bandwidth_gbps = 800; skip_if_unsupported = true }

pub record L3PcieDetector (W : Type 0) : Type 0 where
  pub device : DeviceInterface W
  pub config : L3PcieConfig

unfoldable pub pcie_failure : DeviceId → String → DetectionResult
pcie_failure d error = fail d l3_pcie (new_finding pcie_degradation_type error false ∷ [])

unfoldable pub pcie_verdict : DeviceId → CheckResult → DetectionResult
unfolding pcie_failure
pcie_verdict d result =
    if result.passed
    then pass d l3_pcie
    else pcie_failure d (get_or result.error "PCIe bandwidth test failed")

module _ {W : Type 0} where
  -- `L3PcieDetector::new`
  unfoldable pub new_pcie_detector : DeviceInterface W → L3PcieDetector W
  new_pcie_detector device = record { device = device; config = default_pcie_config }

  unfoldable pub with_config : DeviceInterface W → L3PcieConfig → L3PcieDetector W
  with_config device config = record { device = device; config = config }

  unfoldable pub is_supported : L3PcieDetector W → Bool
  is_supported det = det.device.supports_pcie_test

  unfoldable pub detect : L3PcieDetector W → DeviceId → Effect W DeviceError DetectionResult
  unfolding pcie_failure pcie_verdict
  detect det d =
      if not det.device.supports_pcie_test
      then if det.config.skip_if_unsupported
        then pure (pass d l3_pcie)
        else pure (pcie_failure d "PCIe bandwidth test not supported on this device")
      else do result ← det.device.run_pcie_test d; pure (pcie_verdict d result)

  unfoldable pub detect_all : L3PcieDetector W → Effect W DeviceError (List DetectionResult)
  unfolding is_supported
  detect_all det =
      if not (is_supported det) && det.config.skip_if_unsupported
      then pure []
      else do devices ← det.device.list_devices; collect (detect det) devices
