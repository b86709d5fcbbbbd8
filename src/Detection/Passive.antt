-- ===== src/Detection/Passive.antt =====
-- src/rust/gdnd/gdnd-core/src/detection/l1_passive.rs.
pub mod Verdict
pub mod Sees
use gpu_dead_node_detector.Device.{
  is_fatal, DeviceInterface, DeviceId, DeviceMetrics, XidError, DeviceError,
}
use gpu_dead_node_detector.Common.{
  ℕ, List, Effect, if◌then◌else◌, ltb, is_empty, ◌∷◌, [], false, ◌++◌, ◌>>=◌, attempt, collect,
  pure, map,
}
use gpu_dead_node_detector.Detection.{
  Finding, DetectionResult, fatal_xid, high_temperature, new_finding, pass, non_fatal_xid_type,
  l1_passive, fail, double_bit_ecc, zombie_process,
}

pub record L1PassiveDetector (W : Type 0) : Type 0 where
  pub device : DeviceInterface W
  pub temperature_threshold : ℕ
  pub fatal_xids : List ℕ

-- 1. temperature and ECC errors
unfoldable pub metrics_findings : ℕ → DeviceMetrics → List Finding
metrics_findings threshold metrics =
    (if ltb threshold metrics.temperature
      then high_temperature metrics.temperature threshold ∷ []
      else [])
    ++ (if ltb 0 metrics.ecc_errors.double_bit
        then double_bit_ecc metrics.ecc_errors.double_bit ∷ []
        else [])

-- 2. XID errors
unfoldable pub xid_finding : List ℕ → XidError → Finding
xid_finding fatal_xids xid =
    if is_fatal xid fatal_xids
    then fatal_xid xid.code xid.message
    else new_finding (non_fatal_xid_type xid.code) xid.message false

-- The end of `detect`.
unfoldable pub conclude : DeviceId → List Finding → DetectionResult
conclude d findings = if is_empty findings then pass d l1_passive else fail d l1_passive findings

module _ {W : Type 0} where
  -- The three parts push what they find in turn; a query that fails adds nothing.
  unfoldable pub detect : L1PassiveDetector W → DeviceId → Effect W DeviceError DetectionResult
  detect det d = do
    heat ←
        attempt {F = DeviceError} (det.device.get_metrics d)
          (λ metrics. pure (metrics_findings det.temperature_threshold metrics)) (λ e. pure [])
    xids ←
        attempt {F = DeviceError} (det.device.get_xid_errors d)
          (λ errors. pure (map (xid_finding det.fatal_xids) errors)) (λ e. pure [])
    zombies ←
        attempt {F = DeviceError} (det.device.check_zombie_processes d)
          (λ pids. pure (map zombie_process pids)) (λ e. pure [])
    pure (conclude d (heat ++ xids ++ zombies))

  unfoldable pub detect_all : L1PassiveDetector W → Effect W DeviceError (List DetectionResult)
  detect_all det = do devices ← det.device.list_devices; collect (detect det) devices
