-- ===== src/Detection/Active/Verdict.antt =====
-- What the active detector answers, for any device interface.
use gpu_dead_node_detector.Detection.{
  has_fatal_finding, l2_active, pass, fail, FindingType, new_finding, active_check_failure,
  DetectionResult, active_check_timeout_type, active_check_failure_type,
}
use gpu_dead_node_detector.Device.{timeout, CheckResult, DeviceId}
use gpu_dead_node_detector.Detection.Active.{
  L2ActiveDetector, active_verdict, active_finding, detect, says_timed_out,
}
use gpu_dead_node_detector.Common.{
  List, ◌≡◌, if◌then◌else◌, ok, ℕ, [], map, false, ◌∷◌, arith, refl,
}

-- The types of the findings of a check.
abbrev expected_types : CheckResult → List FindingType
expected_types c =
    if c.passed
    then []
    else (if says_timed_out c.error then active_check_timeout_type else active_check_failure_type)
      ∷ []

judged :
    (d : DeviceId) (limit : ℕ) (c : CheckResult)
    → let r = active_verdict d limit c in
      (r.device ≡ d)
      × (r.level ≡ l2_active)
      × (r.passed ≡ c.passed)
      × (map (λ f. f.finding_type) r.findings ≡ expected_types c)
      × (has_fatal_finding r ≡ false)
unfolding active_verdict active_finding pass fail has_fatal_finding new_finding active_check_failure
judged d limit c = ground arith

-- Where the check of a device runs, `detect` passes exactly if the check passed; a failed check is
-- one finding, a timeout if its error says "timed out" and a failure otherwise, and never fatal.
pub detect_active_verdict :
    {W : Type 0} (det : L2ActiveDetector W) (d : DeviceId) (w : W) {c : CheckResult}
    → (det.device.run_active_check d det.timeout w).0 ≡ ok c
    → (r : DetectionResult) × ((detect det d w).0 ≡ ok r)
      × (r.device ≡ d)
      × (r.level ≡ l2_active)
      × (r.passed ≡ c.passed)
      × (map (λ f. f.finding_type) r.findings ≡ expected_types c)
      × (has_fatal_finding r ≡ false)
unfolding detect
detect_active_verdict det d w {c} ran =
    let j = judged d det.timeout c in
    (active_verdict d det.timeout c, rw ran, j.0, j.1, j.2, j.3, j.4)

-- The check result that stands for a timeout is reported as a timeout.
pub timeout-is_reported :
    (d : DeviceId) (limit : ℕ)
    → map (λ f. f.finding_type) (active_verdict d limit (timeout limit)).findings
      ≡ active_check_timeout_type ∷ []
unfolding active_verdict active_finding fail new_finding timeout
timeout-is_reported d limit = refl
