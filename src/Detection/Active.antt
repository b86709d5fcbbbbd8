-- ===== src/Detection/Active.antt =====
-- src/rust/gdnd/gdnd-core/src/detection/l2_active.rs.
pub mod Verdict
use gpu_dead_node_detector.Device.{DeviceInterface, DeviceId, CheckResult, DeviceError}
use gpu_dead_node_detector.Common.{
  String, Option, ℕ, Effect, Bool, false, if◌then◌else◌, List, some, has_part, concat, none, ◌∷◌,
  debug_duration, [], get_or, ◌>>=◌, pure, collect,
}
use gpu_dead_node_detector.Detection.{
  Finding, DetectionResult, new_finding, pass, active_check_timeout_type, l2_active, fail,
  active_check_failure,
}

pub record L2ActiveDetector (W : Type 0) : Type 0 where
  pub device : DeviceInterface W
  pub gpu_check_path : String
  pub timeout : ℕ

-- `result.error.as_ref().is_some_and(|e| e.contains("timed out"))`
abbrev says_timed_out : Option String → Bool
says_timed_out none = false
says_timed_out (some e) = has_part e "timed out"

-- The finding of a check that did not pass.
unfoldable pub active_finding : ℕ → Option String → Finding
active_finding timeout error =
    if says_timed_out error
    then new_finding active_check_timeout_type
        (concat ("Active check timed out after " ∷ debug_duration timeout ∷ [])) false
    else active_check_failure (get_or error "Unknown error")

unfoldable pub active_verdict : DeviceId → ℕ → CheckResult → DetectionResult
active_verdict d timeout result =
    if result.passed
    then pass d l2_active
    else fail d l2_active (active_finding timeout result.error ∷ [])

module _ {W : Type 0} where
  unfoldable pub detect : L2ActiveDetector W → DeviceId → Effect W DeviceError DetectionResult
  detect det d = do
    result ← det.device.run_active_check d det.timeout
    pure (active_verdict d det.timeout result)

  unfoldable pub detect_all : L2ActiveDetector W → Effect W DeviceError (List DetectionResult)
  detect_all det = do devices ← det.device.list_devices; collect (detect det) devices
