-- ===== src/Detection.antt =====
-- src/rust/gdnd/gdnd-core/src/detection/mod.rs: findings and the result of a check.
pub mod Passive
pub mod Active
pub mod Pcie
pub mod Keeps
use gpu_dead_node_detector.Common.{
  ℕ, String, Bool, true, false, List, [], ◌∷◌, any, decimal, concat,
}
use gpu_dead_node_detector.Device.{DeviceId}

pub data DetectionLevel : Type 0 where
  l1_passive l2_active l3_pcie : DetectionLevel

-- `Display`
unfoldable pub level_text : DetectionLevel → String
level_text l1_passive = "L1"
level_text l2_active = "L2"
level_text l3_pcie = "L3"

pub data FindingType : Type 0 where
  fatal_xid_type : ℕ → FindingType
  non_fatal_xid_type : ℕ → FindingType
  high_temperature_type zombie_process_type : FindingType
  active_check_failure_type active_check_timeout_type : FindingType
  double_bit_ecc_type pcie_degradation_type : FindingType

pub record Finding : Type 0 where
  pub finding_type : FindingType
  pub message : String
  pub is_fatal : Bool

unfoldable pub new_finding : FindingType → String → Bool → Finding
new_finding finding_type message is_fatal = record {
  finding_type = finding_type;
  message = message;
  is_fatal = is_fatal;
}

unfoldable pub fatal_xid : ℕ → String → Finding
fatal_xid code message = record {
  finding_type = fatal_xid_type code;
  message = message;
  is_fatal = true;
}

unfoldable pub high_temperature : ℕ → ℕ → Finding
high_temperature temp threshold = record {
  finding_type = high_temperature_type;
  message =
      concat
        ("Temperature " ∷ decimal temp ∷ "C exceeds threshold " ∷ decimal threshold ∷ "C" ∷ []);
  is_fatal = false;
}

unfoldable pub zombie_process : ℕ → Finding
zombie_process pid = record {
  finding_type = zombie_process_type;
  message = concat ("Zombie GPU process detected: PID " ∷ decimal pid ∷ []);
  is_fatal = false;
}

unfoldable pub active_check_failure : String → Finding
active_check_failure error = record {
  finding_type = active_check_failure_type;
  message = error;
  is_fatal = false;
}

unfoldable pub double_bit_ecc : ℕ → Finding
double_bit_ecc count = record {
  finding_type = double_bit_ecc_type;
  message = concat ("Double-bit ECC errors detected: " ∷ decimal count ∷ []);
  is_fatal = true;
}

pub record DetectionResult : Type 0 where
  pub device : DeviceId
  pub level : DetectionLevel
  pub passed : Bool
  pub findings : List Finding

unfoldable pub pass : DeviceId → DetectionLevel → DetectionResult
pass device level = record { device = device; level = level; passed = true; findings = [] }

unfoldable pub fail : DeviceId → DetectionLevel → List Finding → DetectionResult
fail device level findings = record {
  device = device;
  level = level;
  passed = false;
  findings = findings;
}

unfoldable pub has_fatal_finding : DetectionResult → Bool
has_fatal_finding r = any (λ f. f.is_fatal) r.findings

-- The derived `Debug` of a finding's type.
unfoldable pub debug_finding_type : FindingType → String
debug_finding_type (fatal_xid_type code) = concat ("FatalXid(" ∷ decimal code ∷ ")" ∷ [])
debug_finding_type (non_fatal_xid_type code) = concat ("NonFatalXid(" ∷ decimal code ∷ ")" ∷ [])
debug_finding_type high_temperature_type = "HighTemperature"
debug_finding_type zombie_process_type = "ZombieProcess"
debug_finding_type active_check_failure_type = "ActiveCheckFailure"
debug_finding_type active_check_timeout_type = "ActiveCheckTimeout"
debug_finding_type double_bit_ecc_type = "DoubleBitEcc"
debug_finding_type pcie_degradation_type = "PcieDegradation"
