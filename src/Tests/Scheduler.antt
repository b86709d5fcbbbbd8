-- ===== src/Tests/Scheduler.antt =====
-- The scheduler at work on two devices, with an executor that succeeds and one that fails.
use gpu_dead_node_detector.Device.{message}
use gpu_dead_node_detector.Scheduler.Refines.{run_isolated_forever}
use gpu_dead_node_detector.Health.Status.{status_of}
use gpu_dead_node_detector.Health.Recovery.{IsCutOff}
use gpu_dead_node_detector.Scheduler.Condemned.{l1_pass_isolates}
use gpu_dead_node_detector.Scheduler.Shown.{shown_status-process_result}
use gpu_dead_node_detector.Metrics.Gauges.{shown_status}
use gpu_dead_node_detector.Metrics.{status_value}
use gpu_dead_node_detector.Scheduler.{
  run_l1_detection, process_result, judge, complete, IsolationExecutor, State, run,
  DetectionScheduler, l1_tick, l2_tick, shutdown_changed, l3_tick, run_l2_detection,
}
use gpu_dead_node_detector.Health
use gpu_dead_node_detector.Scheduler
use gpu_dead_node_detector.Tests.Fixtures.{
  gpu0, gpu1, clock, passive, active, pcie, healer, system, Log,
}
use gpu_dead_node_detector.Health.{
  fatal_error, isolation_completed, new_manager, state_eq, GpuHealthManager, with_recovery,
  isolated, unhealthy, healthy, transition, step, get_or_create, new_health, get, device_key,
  event_of, dispatch, fatal,
}
use gpu_dead_node_detector.Detection.{
  DetectionResult, fail, pass, l1_passive, fatal_xid, has_fatal_finding,
}
use gpu_dead_node_detector.Health.Invariant.{transition-IsValid, new_manager-IsValid}
use gpu_dead_node_detector.Common.{
  ok, raise, [], ◌≡◌, ◌++◌, some, ◌∷◌, err, inl, arith, lookup, insert, refl, ◌⊎◌, eq_iff, is_ok,
  false,
}
use gpu_dead_node_detector.Health.Diagram.{state_of}
use gpu_dead_node_detector.Scheduler.Isolation.{never_retried, newly_unhealthy_isolated}
use gpu_dead_node_detector.Scheduler.Settled.{IsSettled, run-IsSettled}
use gpu_dead_node_detector.Scheduler.Masking.{unrunnable_check_hides_pass}

abbrev executing : IsolationExecutor Log
executing = record { execute = λ done w. (ok tt, w ++ "execute" ∷ []) }

abbrev refusing : IsolationExecutor Log
refusing = record { execute = λ done. raise (message "Forbidden") }

abbrev scheduler : IsolationExecutor Log → DetectionScheduler Log
scheduler executor = record {
  l1_detector = passive;
  l2_detector = active;
  l3_detector = some pcie;
  isolation_executor = executor;
  healer = some healer;
  l1_interval = 30;
  l2_interval = 300;
  l3_interval = some 3600;
  system = system;
  clock = λ w. clock;
}

abbrev manager : GpuHealthManager
manager = with_recovery 3 1 (79 ∷ [])

abbrev started : State Log
started = record { manager = manager; updates = []; world = [] }

abbrev fell_off : DetectionResult
fell_off = fail gpu0 l1_passive (fatal_xid 79 "GPU has fallen off the bus" ∷ [])

abbrev sound : DetectionResult
sound = pass gpu0 l1_passive

-- After one fatal result, with each executor.
abbrev unhealthy_state : State Log
unhealthy_state = (process_result (scheduler refusing) fell_off started).1

abbrev isolated_state : State Log
isolated_state = (process_result (scheduler executing) fell_off started).1

newly_unhealthy_isolated_example :
    ((process_result (scheduler refusing) fell_off started).0 ≡ err (message "Forbidden"))
    × (state_of unhealthy_state.manager gpu0 ≡ unhealthy)
unfolding process_result judge Scheduler.isolate complete state_of with_recovery transition step
    get_or_create new_health lookup insert get device_key Health.process_result event_of
    has_fatal_finding fail pass fatal_xid state_eq dispatch fatal
newly_unhealthy_isolated_example =
    newly_unhealthy_isolated (scheduler refusing) fell_off started (ground arith) refl

never_retried_example :
    ((process_result (scheduler executing) fell_off unhealthy_state).0 ≡ ok tt)
    × (state_of (process_result (scheduler executing) fell_off unhealthy_state).1.manager gpu0
        ≡ unhealthy)
    × ((process_result (scheduler executing) fell_off unhealthy_state).1.world
        ≡ unhealthy_state.world)
unfolding process_result judge Scheduler.isolate complete state_of with_recovery transition step
    get_or_create new_health lookup insert get device_key Health.process_result event_of
    has_fatal_finding fail pass fatal_xid state_eq dispatch fatal
never_retried_example = never_retried (scheduler executing) fell_off unhealthy_state refl

-- The second device has no program to check it.
unrunnable_check_hides_pass_example :
    let (answer, final) = run_l2_detection (scheduler executing) started in
    (is_ok answer ≡ false) × (final.manager ≡ manager) × (final.updates ≡ [])
unrunnable_check_hides_pass_example =
    unrunnable_check_hides_pass (scheduler executing) started (gpu0 ∷ []) [] gpu1 [] refl
      (λ w. refl)

manager-IsSettled : IsSettled manager
unfolding state_of get with_recovery lookup
manager-IsSettled d bad = ground (arith, bad)

run-IsSettled_example :
    IsSettled (run (scheduler executing) (l1_tick ∷ l2_tick ∷ l1_tick ∷ []) started).1.manager
run-IsSettled_example =
    run-IsSettled (scheduler executing) (λ done w. refl) (l1_tick ∷ l2_tick ∷ l1_tick ∷ []) started
      manager-IsSettled

-- Both devices show XID 79; the second one is isolated too.
l1_pass_isolates_example :
    let (answer, final) = run_l1_detection (scheduler executing) started in
    (answer ≡ ok tt) × (state_of final.manager gpu1 ≡ isolated)
unfolding state_of with_recovery lookup device_key get
l1_pass_isolates_example =
    l1_pass_isolates (scheduler executing) (λ done w. refl) (gpu0 ∷ []) [] gpu1 started refl
      (ground (arith, eq_iff "GPU-a" "GPU-b"), tt) tt refl (inl refl)

shown_status-process_result_example :
    (shown_status gpu0 isolated_state.updates ≡ some 2)
    × ((state_of isolated_state.manager gpu0 ≡ unhealthy)
        ⊎ ((unhealthy ≡ unhealthy) × (state_of isolated_state.manager gpu0 ≡ isolated)))
unfolding state_of with_recovery transition step get_or_create new_health lookup insert get
    device_key Health.process_result event_of has_fatal_finding fail fatal_xid dispatch fatal
    status_value
shown_status-process_result_example =
    shown_status-process_result (scheduler executing) fell_off started

-- Without recovery: a device that a fatal error has isolated.
abbrev condemned_manager : GpuHealthManager
condemned_manager = (transition (new_manager 3 (79 ∷ [])) clock gpu0 (fatal_error [])).0

abbrev cut_off_state : State Log
cut_off_state = record started {
  manager = (transition condemned_manager clock gpu0 isolation_completed).0;
}

run_isolated_forever_example : IsCutOff (
    status_of
      (run (scheduler executing) (l1_tick ∷ l2_tick ∷ l1_tick ∷ []) cut_off_state).1.manager
      gpu0)
unfolding process_result judge Scheduler.isolate complete new_manager transition step get_or_create
    new_health lookup insert get device_key Health.process_result event_of has_fatal_finding fail
    fatal_xid state_eq dispatch fatal status_of
run_isolated_forever_example =
    run_isolated_forever (scheduler executing) (l1_tick ∷ l2_tick ∷ l1_tick ∷ []) cut_off_state gpu0
      (transition-IsValid condemned_manager clock gpu0 isolation_completed (
        transition-IsValid (new_manager 3 (79 ∷ [])) clock gpu0 (fatal_error [])
          (new_manager-IsValid 3 (79 ∷ []) (omega arith))))
      refl tt
