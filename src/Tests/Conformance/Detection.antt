-- ===== src/Tests/Conformance/Detection.antt =====
-- The tests of gdnd-core/src/detection/l1_passive.rs, l2_active.rs and l3_pcie.rs, on the mock
-- device.
use gpu_dead_node_detector.Device.{is_fatal}
use gpu_dead_node_detector.Device.Mock.{mock_metrics, mock_check}
use gpu_dead_node_detector.Detection.{
  pass, fail, new_finding, zombie_process, high_temperature, fatal_xid, active_check_failure,
}
use gpu_dead_node_detector.Detection.Passive.{conclude, metrics_findings, xid_finding}
use gpu_dead_node_detector.Detection.Active.{active_verdict, active_finding}
use gpu_dead_node_detector.Detection.Pcie.{
  pcie_verdict, pcie_failure, new_pcie_detector, is_supported,
}
use gpu_dead_node_detector.Common.{
  ◌∷◌, [], true, false, ◌==◌, not, is_empty, any, ◌≡◌, refl, length, collect, Effect, Bool, List,
  map,
}
use gpu_dead_node_detector.Device.{DeviceInterface, DeviceId, DeviceError, success, failure}
use gpu_dead_node_detector.Device.Mock.{
  MockDevice, mock_interface, new_mock, with_device_count, mock_id, set_temperature, add_xid_error,
  add_zombie_pid, set_fail_active_check, set_fail_pcie_test,
}
use gpu_dead_node_detector.Detection.{
  FindingType, DetectionResult, high_temperature_type, zombie_process_type,
  active_check_failure_type, pcie_degradation_type, has_fatal_finding, DetectionLevel, l3_pcie,
}
use gpu_dead_node_detector.Detection.Passive
use gpu_dead_node_detector.Detection.Active
use gpu_dead_node_detector.Detection.Pcie
use gpu_dead_node_detector.Tests.Conformance.{asserts, answered}
use gpu_dead_node_detector.Detection.Pcie.{L3PcieDetector, new_pcie_detector, is_supported}
use gpu_dead_node_detector.Detection.Passive.{L1PassiveDetector}
use gpu_dead_node_detector.Detection.Active.{L2ActiveDetector}

-- The mock device over a world with nothing in it.
abbrev mocked : MockDevice → DeviceInterface (Unit {0})
mocked m = mock_interface (λ w. 6) m

-- The answer of a check of the first device that is listed.
abbrev of_first :
    DeviceInterface (Unit {0})
    → (DeviceId → Effect (Unit {0}) DeviceError DetectionResult)
    → (DetectionResult → List Bool)
    → Bool
of_first device check f =
    answered (device.list_devices tt).0
      (λ devices. elim devices [ [] ↦ false ∷ [] | d ∷ others ↦ answered (check d tt).0 f ∷ [] ])

abbrev has_type : (FindingType → Bool) → DetectionResult → Bool
has_type p r = any (λ f. p f.finding_type) r.findings

abbrev is_high_temperature : FindingType → Bool
is_high_temperature high_temperature_type = true
is_high_temperature _ = false

abbrev is_zombie_process : FindingType → Bool
is_zombie_process zombie_process_type = true
is_zombie_process _ = false

abbrev is_active_check_failure : FindingType → Bool
is_active_check_failure active_check_failure_type = true
is_active_check_failure _ = false

abbrev is_pcie_degradation : FindingType → Bool
is_pcie_degradation pcie_degradation_type = true
is_pcie_degradation _ = false

abbrev is_l3 : DetectionLevel → Bool
is_l3 l3_pcie = true
is_l3 _ = false

abbrev passive_on : MockDevice → (DetectionResult → List Bool) → Bool
passive_on m f =
    let det : L1PassiveDetector (Unit {0}) = record {
      device = mocked m;
      temperature_threshold = 85;
      fatal_xids = 31 ∷ 43 ∷ 48 ∷ 79 ∷ [];
    } in
    of_first det.device (Passive.detect det) f

abbrev active_on : MockDevice → (DetectionResult → List Bool) → Bool
active_on m f =
    let det : L2ActiveDetector (Unit {0}) = record {
      device = mocked m;
      gpu_check_path = "/usr/local/bin/gpu-check";
      timeout = 5000000000;
    } in
    of_first det.device (Active.detect det) f

abbrev test_l1_detect_healthy : Bool
test_l1_detect_healthy = passive_on new_mock (λ r. r.passed ∷ is_empty r.findings ∷ [])

abbrev test_l1_detect_high_temp : Bool
test_l1_detect_high_temp =
    passive_on (set_temperature new_mock 90)
      (λ r. not r.passed ∷ has_type is_high_temperature r ∷ [])

abbrev test_l1_detect_fatal_xid : Bool
test_l1_detect_fatal_xid =
    passive_on (add_xid_error 6 new_mock 31 0) (λ r. not r.passed ∷ has_fatal_finding r ∷ [])

abbrev test_l1_detect_zombie : Bool
test_l1_detect_zombie =
    passive_on (add_zombie_pid new_mock 12345)
      (λ r. not r.passed ∷ has_type is_zombie_process r ∷ [])

abbrev test_l2_detect_pass : Bool
test_l2_detect_pass = active_on new_mock (λ r. r.passed ∷ is_empty r.findings ∷ [])

abbrev test_l2_detect_fail : Bool
test_l2_detect_fail =
    active_on (set_fail_active_check new_mock true)
      (λ r. not r.passed ∷ has_type is_active_check_failure r ∷ [])

abbrev pcie_detector : MockDevice → L3PcieDetector (Unit {0})
pcie_detector m = new_pcie_detector (mocked m)

abbrev test_l3_pcie_supported : Bool
test_l3_pcie_supported = asserts (is_supported (pcie_detector new_mock) ∷ [])

abbrev test_l3_pcie_detect_pass : Bool
test_l3_pcie_detect_pass =
    of_first (mocked new_mock) (Pcie.detect (pcie_detector new_mock))
      (λ r. r.passed ∷ is_empty r.findings ∷ is_l3 r.level ∷ [])

abbrev test_l3_pcie_detect_all : Bool
test_l3_pcie_detect_all =
    answered (Pcie.detect_all (pcie_detector new_mock) tt).0
      (λ results. (length results == 2) ∷ map (λ r. r.passed) results)

abbrev test_l3_pcie_config : Bool
test_l3_pcie_config = asserts (
    is_supported (
      Pcie.with_config (mocked new_mock)
        (record { min_bandwidth_gbps = 1200; skip_if_unsupported = false }))
    ∷ [])

abbrev test_l3_pcie_detect_fail : Bool
test_l3_pcie_detect_fail =
    let failing = set_fail_pcie_test new_mock true in
    of_first (mocked failing) (Pcie.detect (pcie_detector failing))
      (λ r. not r.passed ∷ has_type is_pcie_degradation r ∷ [])

detection_tests :
    asserts (
      test_l1_detect_healthy ∷ test_l1_detect_high_temp ∷ test_l1_detect_fatal_xid
      ∷ test_l1_detect_zombie ∷ test_l2_detect_pass ∷ test_l2_detect_fail ∷ test_l3_pcie_supported
      ∷ test_l3_pcie_detect_pass ∷ test_l3_pcie_detect_all ∷ test_l3_pcie_config
      ∷ test_l3_pcie_detect_fail ∷ [])
    ≡ true
unfolding Passive.detect Active.detect Pcie.detect Pcie.detect_all active_verdict active_finding
    pcie_verdict pcie_failure new_pcie_detector Pcie.with_config is_supported mock_interface
    new_mock with_device_count mock_id mock_metrics mock_check set_temperature add_xid_error
    add_zombie_pid set_fail_active_check set_fail_pcie_test conclude metrics_findings xid_finding
    fatal_xid new_finding zombie_process high_temperature pass fail has_fatal_finding collect
    active_check_failure success failure is_fatal
detection_tests = refl
