-- ===== src/Tests/Conformance/Health.antt =====
-- The tests of gdnd-core/src/state_machine.rs.
use gpu_dead_node_detector.Health.{
  step, dispatch, device_key, get_or_create, new_health, isolation_actions, recovery_actions, fatal,
  fail_again, recover, change, no_change,
}
use gpu_dead_node_detector.Common.{ℕ, lookup, insert, List, Bool}
use gpu_dead_node_detector.Tests.Fixtures.{clock}
use gpu_dead_node_detector.Common.{
  ◌∷◌, [], true, false, ◌==◌, ◌||◌, not, is_empty, any, some, concat, decimal, ◌≡◌, refl,
}
use gpu_dead_node_detector.Device.{DeviceId}
use gpu_dead_node_detector.Detection.{Finding, high_temperature, fatal_xid}
use gpu_dead_node_detector.Health.{
  transition, get, new_manager, with_recovery, check_passed, check_failed, fatal_error,
  isolation_completed, healthy, suspected, unhealthy, isolated, state_eq, uncordon, remove_taint,
  HealthEvent, GpuHealthManager, IsolationAction, StateTransition, step, dispatch, device_key,
  get_or_create, new_health, isolation_actions, recovery_actions, fatal, fail_again, recover,
  change, no_change,
}
use gpu_dead_node_detector.Tests.Conformance.{asserts, unwrapped}

abbrev test_device : ℕ → DeviceId
test_device index = record {
  index = index;
  uuid = some (concat ("GPU-TEST-" ∷ decimal index ∷ []));
  name = "Test GPU";
}

abbrev device : DeviceId
device = test_device 0

abbrev manager : GpuHealthManager
manager = new_manager 3 (31 ∷ 43 ∷ 48 ∷ 79 ∷ [])

abbrev recovering : GpuHealthManager
recovering = with_recovery 3 3 (31 ∷ 43 ∷ 48 ∷ 79 ∷ [])

abbrev hot_findings : List Finding
hot_findings = high_temperature 90 85 ∷ []

abbrev bus_findings : List Finding
bus_findings = fatal_xid 79 "GPU fallen off the bus" ∷ []

-- `manager.transition(&device, event)`: the manager and the transition that it leaves.
abbrev sent : GpuHealthManager → HealthEvent → GpuHealthManager × StateTransition
sent m event = transition m clock device event

abbrev after : GpuHealthManager → List HealthEvent → GpuHealthManager
after m [] = m
after m (event ∷ events) = after (sent m event).0 events

abbrev is_uncordon : IsolationAction → Bool
is_uncordon uncordon = true
is_uncordon _ = false

abbrev is_remove_taint : IsolationAction → Bool
is_remove_taint (remove_taint key) = true
is_remove_taint _ = false

abbrev test_healthy_to_suspected : Bool
test_healthy_to_suspected =
    let (m, t) = sent manager (check_failed hot_findings) in
    asserts (
      t.changed
      ∷ state_eq t.from healthy
      ∷ state_eq t.to suspected
      ∷ is_empty t.actions
      ∷ unwrapped (get m device) (λ h. state_eq h.state suspected ∷ (h.failure_count == 1) ∷ [])
      ∷ [])

abbrev test_suspected_to_healthy : Bool
test_suspected_to_healthy =
    let (m, t) = sent (after manager (check_failed hot_findings ∷ [])) check_passed in
    asserts (
      t.changed
      ∷ state_eq t.from suspected
      ∷ state_eq t.to healthy
      ∷ unwrapped (get m device) (λ h. state_eq h.state healthy ∷ (h.failure_count == 0) ∷ [])
      ∷ [])

abbrev is_calm : GpuHealthManager → Bool
is_calm m =
    unwrapped (get m device) (λ h. (state_eq h.state healthy || state_eq h.state suspected) ∷ [])

abbrev test_suspected_to_unhealthy_threshold : Bool
test_suspected_to_unhealthy_threshold =
    let first = after manager (check_failed hot_findings ∷ []) in
    let second = after first (check_failed hot_findings ∷ []) in
    let (m, t) = sent second (check_failed hot_findings) in
    asserts (
      is_calm first
      ∷ is_calm second
      ∷ t.changed
      ∷ state_eq t.to unhealthy
      ∷ not (is_empty t.actions)
      ∷ unwrapped (get m device) (λ h. state_eq h.state unhealthy ∷ [])
      ∷ [])

abbrev test_fatal_error_immediate_unhealthy : Bool
test_fatal_error_immediate_unhealthy =
    let (m, t) = sent manager (fatal_error (fatal_xid 31 "GPU memory page fault" ∷ [])) in
    asserts (
      t.changed ∷ state_eq t.from healthy ∷ state_eq t.to unhealthy ∷ not (is_empty t.actions) ∷ [])

abbrev test_unhealthy_to_isolated : Bool
test_unhealthy_to_isolated =
    let (m, t) = sent (after manager (fatal_error bus_findings ∷ [])) isolation_completed in
    asserts (t.changed ∷ state_eq t.from unhealthy ∷ state_eq t.to isolated ∷ [])

-- `Make isolated`
abbrev cut : GpuHealthManager → GpuHealthManager
cut m = after m (fatal_error bus_findings ∷ isolation_completed ∷ [])

abbrev test_isolated_no_transition : Bool
test_isolated_no_transition =
    let (m, passed) = sent (cut manager) check_passed in
    let (n, failed) = sent m (check_failed hot_findings) in
    asserts (
      not passed.changed
      ∷ state_eq passed.to isolated
      ∷ not failed.changed
      ∷ state_eq failed.to isolated
      ∷ [])

-- One of the first passes, after which the recovery count is this.
abbrev is_still_isolated : GpuHealthManager → ℕ → Bool
is_still_isolated m count =
    let (n, t) = sent m check_passed in
    asserts (
      not t.changed
      ∷ state_eq t.to isolated
      ∷ unwrapped (get n device) (λ h. (h.recovery_count == count) ∷ [])
      ∷ [])

abbrev test_isolated_recovery_enabled : Bool
test_isolated_recovery_enabled =
    let start = cut recovering in
    let second = after start (check_passed ∷ []) in
    let (m, t) = sent (after second (check_passed ∷ [])) check_passed in
    asserts (
      unwrapped (get start device) (λ h. state_eq h.state isolated ∷ [])
      ∷ is_still_isolated start 1
      ∷ is_still_isolated second 2
      ∷ t.changed
      ∷ state_eq t.from isolated
      ∷ state_eq t.to healthy
      ∷ not (is_empty t.actions)
      ∷ any is_uncordon t.actions
      ∷ any is_remove_taint t.actions
      ∷ unwrapped (get m device)
          (λ h. state_eq h.state healthy ∷ (h.failure_count == 0) ∷ (h.recovery_count == 0) ∷ [])
      ∷ [])

abbrev test_isolated_recovery_reset_on_failure : Bool
test_isolated_recovery_reset_on_failure =
    let passed = after (cut recovering) (check_passed ∷ check_passed ∷ []) in
    let failed = after passed (check_failed hot_findings ∷ []) in
    asserts (
      unwrapped (get passed device) (λ h. (h.recovery_count == 2) ∷ [])
      ∷ unwrapped (get failed device)
          (λ h. (h.recovery_count == 0) ∷ state_eq h.state isolated ∷ [])
      ∷ [])

state_machine_tests :
    asserts (
      test_healthy_to_suspected ∷ test_suspected_to_healthy ∷ test_suspected_to_unhealthy_threshold
      ∷ test_fatal_error_immediate_unhealthy ∷ test_unhealthy_to_isolated
      ∷ test_isolated_no_transition ∷ test_isolated_recovery_enabled
      ∷ test_isolated_recovery_reset_on_failure ∷ [])
    ≡ true
unfolding transition get new_manager with_recovery step dispatch state_eq device_key get_or_create
    new_health lookup insert isolation_actions recovery_actions fatal fail_again recover change
    no_change high_temperature fatal_xid concat decimal
state_machine_tests = refl
