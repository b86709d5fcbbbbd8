-- ===== src/Tests/Conformance/Device.antt =====
-- The tests of gdnd-core/src/device/interface.rs, mock.rs and nvidia.rs.
use gpu_dead_node_detector.Common.{
  ◌∷◌, [], true, false, ◌==◌, not, is_none, some, ◌≡◌, refl, length, str_eq, has_part, Bool, Effect,
  decimal, List, concat,
}
use gpu_dead_node_detector.Device.{
  DeviceInterface, DeviceId, DeviceError, XidError, display, is_fatal, success, failure, timeout,
}
use gpu_dead_node_detector.Device.Mock.{
  MockDevice, mock_interface, new_mock, with_device_count, mock_id, set_temperature, add_xid_error,
  set_fail_active_check, mock_check, mock_metrics,
}
use gpu_dead_node_detector.Device.Nvidia.{get_xid_description}
use gpu_dead_node_detector.Tests.Conformance.{asserts, answered, unwrapped}

abbrev test_device_id_display : Bool
test_device_id_display =
    let id : DeviceId = record { index = 0; uuid = some "GPU-12345"; name = "Tesla V100" } in
    asserts (str_eq (display id) "GPU0" ∷ [])

abbrev test_xid_is_fatal : Bool
test_xid_is_fatal =
    let fatal_xids = 31 ∷ 43 ∷ 48 ∷ 79 ∷ [] in
    let xid : XidError = record {
      code = 31;
      message = "MMU Fault";
      timestamp = 6;
      device_index = 0;
    } in
    let non_fatal : XidError = record {
      code = 13;
      message = "Some warning";
      timestamp = 6;
      device_index = 0;
    } in
    asserts (is_fatal xid fatal_xids ∷ not (is_fatal non_fatal fatal_xids) ∷ [])

abbrev test_check_result : Bool
test_check_result =
    let good = success 100000000 in
    let bad = failure 50000000 "GPU hung" (some 1) in
    let late = timeout 5000000000 in
    asserts (
      good.passed
      ∷ is_none good.error
      ∷ not bad.passed
      ∷ not (is_none bad.error)
      ∷ not late.passed
      ∷ unwrapped late.error (λ text. has_part text "timed out" ∷ [])
      ∷ [])

-- The mock device over a world with nothing in it.
abbrev mocked : MockDevice → DeviceInterface (Unit {0})
mocked m = mock_interface (λ w. 6) m

-- What an operation answers for the first device that is listed.
abbrev of_first :
    {A : Type 0}
    → MockDevice
    → (DeviceId → Effect (Unit {0}) DeviceError A)
    → (A → List Bool)
    → Bool
of_first m operation f =
    answered ((mocked m).list_devices tt).0 (λ devices. elim devices [
      | [] ↦ false ∷ []
      | d ∷ others ↦ answered (operation d tt).0 f ∷ []
    ])

abbrev test_mock_device_list : Bool
test_mock_device_list =
    answered ((mocked (with_device_count 4)).list_devices tt).0
      (λ devices. (length devices == 4) ∷ [])

abbrev test_mock_device_metrics : Bool
test_mock_device_metrics =
    let mock = set_temperature new_mock 75 in
    of_first mock (λ d. (mocked mock).get_metrics d) (λ metrics. (metrics.temperature == 75) ∷ [])

abbrev test_mock_xid_errors : Bool
test_mock_xid_errors =
    let mock = add_xid_error 6 (add_xid_error 6 (add_xid_error 6 new_mock 31 0) 43 0) 31 1 in
    of_first mock (λ d. (mocked mock).get_xid_errors d) (λ errors. (length errors == 2) ∷ [])

abbrev test_mock_active_check_pass : Bool
test_mock_active_check_pass =
    of_first new_mock (λ d. (mocked new_mock).run_active_check d 5000000000) (λ r. r.passed ∷ [])

abbrev test_mock_active_check_fail : Bool
test_mock_active_check_fail =
    let mock = set_fail_active_check new_mock true in
    of_first mock (λ d. (mocked mock).run_active_check d 5000000000) (λ r. not r.passed ∷ [])

abbrev test_xid_descriptions : Bool
test_xid_descriptions = asserts (
    has_part (get_xid_description 31) "page fault"
    ∷ has_part (get_xid_description 43) "stopped"
    ∷ has_part (get_xid_description 48) "ECC"
    ∷ has_part (get_xid_description 79) "fallen off"
    ∷ has_part (get_xid_description 9999) "Unknown"
    ∷ [])

device_tests :
    asserts (
      test_device_id_display ∷ test_xid_is_fatal ∷ test_check_result ∷ test_mock_device_list
      ∷ test_mock_device_metrics ∷ test_mock_xid_errors ∷ test_mock_active_check_pass
      ∷ test_mock_active_check_fail ∷ test_xid_descriptions ∷ [])
    ≡ true
unfolding display is_fatal success failure timeout mock_interface new_mock with_device_count mock_id
    mock_metrics mock_check set_temperature add_xid_error set_fail_active_check get_xid_description
    decimal concat
device_tests = refl
