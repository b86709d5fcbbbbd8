-- ===== src/Tests/Detection.antt =====
-- The detectors at work on two devices: hot, with a fatal XID error, and with a broken active
-- check.
use gpu_dead_node_detector.Detection.Passive
use gpu_dead_node_detector.Detection.Active
use gpu_dead_node_detector.Detection.Pcie
use gpu_dead_node_detector.Tests.Fixtures.{gpu0, gpu1, passive, active, pcie}
use gpu_dead_node_detector.Common.{List, [], ◌≡◌, ok, map, false, ◌∷◌, refl, Result, true, Bool}
use gpu_dead_node_detector.Detection.{
  DetectionResult, has_fatal_finding, l2_active, active_check_failure_type,
}
use gpu_dead_node_detector.Detection.Pcie.{pcie_failure, pcie_verdict, default_pcie_config}
use gpu_dead_node_detector.Detection.Pcie.Verdict.{detect_pcie_verdict}
use gpu_dead_node_detector.Device.{DeviceError}
use gpu_dead_node_detector.Detection.Active.Verdict.{detect_active_verdict}
use gpu_dead_node_detector.Detection.Passive.Verdict.{detect_all_covers, Verdict, detect_verdict}

detect_verdict_example :
    (r : DetectionResult) × ((Passive.detect passive gpu0 []).0 ≡ ok r) × Verdict r gpu0 false true
detect_verdict_example = detect_verdict passive gpu0 []

detect_all_covers_example :
    (results : List DetectionResult) × ((Passive.detect_all passive []).0 ≡ ok results)
    × (map (λ r. r.device) results ≡ gpu0 ∷ gpu1 ∷ [])
detect_all_covers_example = detect_all_covers passive [] refl

detect_active_verdict_example :
    (r : DetectionResult) × ((Active.detect active gpu0 []).0 ≡ ok r)
    × (r.device ≡ gpu0)
    × (r.level ≡ l2_active)
    × (r.passed ≡ false)
    × (map (λ f. f.finding_type) r.findings ≡ active_check_failure_type ∷ [])
    × (has_fatal_finding r ≡ false)
detect_active_verdict_example = detect_active_verdict active gpu0 [] refl

abbrev degraded : DetectionResult
degraded = pcie_failure gpu0 "matrix differs"

detect_pcie_verdict_example :
    (degraded.device ≡ gpu0)
    × (has_fatal_finding degraded ≡ false)
    × (◌≡◌ {A = Result DeviceError Bool} (ok degraded.passed) (ok false))
unfolding Pcie.detect pcie_verdict
detect_pcie_verdict_example = detect_pcie_verdict pcie gpu0 [] refl
