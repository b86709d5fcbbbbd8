-- ===== src/Detection/Pcie/Verdict.antt =====
-- What the PCIe detector answers, for any device interface.
use gpu_dead_node_detector.Detection.{has_fatal_finding, pass, fail, new_finding, DetectionResult}
use gpu_dead_node_detector.Detection.Pcie.{L3PcieDetector, pcie_verdict, detect, detect_all}
use gpu_dead_node_detector.Common.{ℕ, ◌≡◌, refl, false, ok, arith, if◌then◌else◌, map_result}
use gpu_dead_node_detector.Device.{DeviceId, CheckResult}

-- The result of a test on a device that has one.
judged :
    (d : DeviceId) (c : CheckResult)
    → let r = pcie_verdict d c in
      (r.device ≡ d) × (r.passed ≡ c.passed) × (has_fatal_finding r ≡ false)
unfolding pcie_verdict pass fail has_fatal_finding new_finding
judged d c = ground arith

-- What `detect` says of a device: with no test to run, it passes exactly if the configuration skips
-- such devices; with a test that runs, exactly if the test passed. No result is fatal.
pub detect_pcie_verdict :
    {W : Type 0} (det : L3PcieDetector W) (d : DeviceId) (w : W) {r : DetectionResult}
    → (detect det d w).0 ≡ ok r
    → (r.device ≡ d)
      × (has_fatal_finding r ≡ false)
      × (ok r.passed ≡ (
          if det.device.supports_pcie_test
          then map_result (λ c. c.passed) (det.device.run_pcie_test d w).0
          else ok det.config.skip_if_unsupported))
unfolding detect pcie_verdict pass fail has_fatal_finding new_finding
detect_pcie_verdict det d w {r} e = ground arith

-- The configured minimal bandwidth has no influence on any result: two detectors that differ in it
-- alone answer alike.
pub bandwidth_ignored :
    {W : Type 0} (det : L3PcieDetector W) (bandwidth : ℕ) (w : W)
    → detect_all (record det { config = record det.config { min_bandwidth_gbps = bandwidth } }) w
      ≡ detect_all det w
unfolding detect_all detect
bandwidth_ignored det bandwidth w = refl
