-- ===== src/Device/Nvidia/Checks.antt =====
-- What the NVIDIA driver answers.
use gpu_dead_node_detector.Detection.Active
use gpu_dead_node_detector.Device.Nvidia.{
  NvidiaDevice, nvidia_interface, list_devices, device_at, get_xid_errors, xid_errors,
  run_active_check, xid_pattern,
}
use gpu_dead_node_detector.Device.System.{System, Regex, Match, Output}
use gpu_dead_node_detector.Common.{
  ℕ, Option, List, Result, Bool, ◌≡◌, map, map_result, ok, Result-cases, ◌∷◌, arith, range, [],
  false, collect-keys, inl, refl, some, if◌then◌else◌, inr, true, has_part, decimal, err, none,
}
use gpu_dead_node_detector.Device.{is_not_found, check_error, DeviceId, IoError, DeviceError}
use gpu_dead_node_detector.Detection.{
  active_check_failure_type, active_check_timeout_type, DetectionResult, FindingType, pass, fail,
  new_finding, active_check_failure,
}
use gpu_dead_node_detector.Device.Process.{active_check, within_verdict, output_verdict}
use gpu_dead_node_detector.Detection.Active.{active_verdict, active_finding, L2ActiveDetector}

module _ {W : Type 0} (system : System W) (regex : Regex) (dev : NvidiaDevice W) where
  index-device_at :
      (i : ℕ) (w : W) (d : DeviceId) → (device_at system regex dev i w).0 ≡ ok d → d.index ≡ i
  unfolding device_at
  index-device_at i w d e = ground (arith, e)

  -- Where the devices are listed, they are those of the indices from 0 to the count that NVML gives,
  -- each once and in this order.
  pub index-list_devices :
      (w : W) {count : ℕ} {devices : List DeviceId}
      → (dev.nvml.device_count w).0 ≡ ok count
      → (list_devices system regex dev w).0 ≡ ok devices
      → map (λ d. d.index) devices ≡ range 0 count
  unfolding list_devices
  index-list_devices w {count} {devices} counted listed =
      collect-keys (device_at system regex dev) (λ d. d.index) index-device_at (range 0 count)
        (dev.nvml.device_count w).1 devices (rw counted at listed)

codes-xid_errors :
    (now i j : ℕ) (matches : List Match)
    → map (λ x. x.code) (xid_errors now i matches) ≡ map (λ x. x.code) (xid_errors now j matches)
unfolding xid_errors
codes-xid_errors now i j [] = refl
codes-xid_errors now i j (m ∷ matches) = ground (arith, codes-xid_errors now i j matches)

-- The codes that are reported do not depend on the device that is asked for: every device is given
-- the XID errors of all.
pub xids_shared :
    {W : Type 0} (system : System W) (regex : Regex) (dev : NvidiaDevice W) (d other : DeviceId)
    (w : W)
    → map_result (map (λ x. x.code)) (get_xid_errors system regex dev d w).0
      ≡ map_result (map (λ x. x.code)) (get_xid_errors system regex dev other w).0
unfolding get_xid_errors
xids_shared system regex dev d other w = elim (Result-cases (system.run "dmesg" ("-T" ∷ []) w).0) [
  | inl (output, e) ↦
      let now = system.now (system.run "dmesg" ("-T" ∷ []) w).1 in
      ground (
        arith,
        e,
        codes-xid_errors now d.index other.index (regex.captures_iter xid_pattern output.stdout),
      )
  | inr (x, e) ↦ rw e
]

-- What a run of the check program under its time limit leads to.
abbrev pub expected : Option (Result IoError Output) → Result DeviceError (Bool × List FindingType)
expected none = ok (false, active_check_timeout_type ∷ [])
expected (some (ok o)) = ok (
    if o.success
    then (true, [])
    else if has_part o.stderr "timed out"
    then (false, active_check_timeout_type ∷ [])
    else (false, active_check_failure_type ∷ []))
expected (some (err e)) = if is_not_found e.kind then ok (true, []) else err (check_error e.text)

abbrev pub shown : DetectionResult → Bool × List FindingType
shown r = (r.passed, map (λ f. f.finding_type) r.findings)

-- The active detector over the NVIDIA driver: past the limit the device has timed out; a program that
-- ends passes the device exactly if it succeeds; one that is not there passes it too; one that cannot
-- be started otherwise is an error.
pub detect-nvidia_interface :
    {W : Type 0} (system : System W) (regex : Regex) (dev : NvidiaDevice W) (limit : ℕ)
    (d : DeviceId) (w : W)
    → let det : L2ActiveDetector W = record {
      device = nvidia_interface system regex dev;
      gpu_check_path = dev.gpu_check_path;
      timeout = limit;
    } in
      map_result shown (Active.detect det d w).0
      ≡ expected (system.run_within limit dev.gpu_check_path ("-d" ∷ decimal d.index ∷ []) w).0
unfolding Active.detect nvidia_interface run_active_check active_check within_verdict output_verdict
    active_verdict active_finding pass fail new_finding active_check_failure
detect-nvidia_interface system regex dev limit d w = ground arith
