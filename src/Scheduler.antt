-- ===== src/Scheduler.antt =====
-- src/rust/gdnd/gdnd-core/src/scheduler.rs. Its state is the manager, the metric updates so far and
-- the outside world, which the detectors, the healer's commands and the executor share. The lock on
-- the manager is held within single steps, and the loop runs one handler at a time, so a run is a
-- sequence.
pub mod Isolation
pub mod Outcome
pub mod Passes
pub mod Keeps
pub mod Settled
pub mod Condemned
pub mod Shown
pub mod Refines
pub mod Rounds
pub mod Handled
pub mod Masking
pub mod Forecast
pub mod Reporting
pub mod Failing
pub mod Restoring
use gpu_dead_node_detector.Detection.{
  l1_passive, l2_active, l3_pcie, DetectionResult, debug_finding_type, level_text,
}
use gpu_dead_node_detector.Device.{Error, from_device, DeviceId}
use gpu_dead_node_detector.Detection.Passive.{L1PassiveDetector}
use gpu_dead_node_detector.Detection.Active.{L2ActiveDetector}
use gpu_dead_node_detector.Detection.Pcie.{L3PcieDetector}
use gpu_dead_node_detector.Detection.Passive
use gpu_dead_node_detector.Detection.Active
use gpu_dead_node_detector.Detection.Pcie
use gpu_dead_node_detector.Health
use gpu_dead_node_detector.Health.{
  transition, isolation_completed, unhealthy, get, Clock, StateTransition, GpuHealthManager,
}
use gpu_dead_node_detector.Healing.{SelfHealer, heal, is_enabled}
use gpu_dead_node_detector.Metrics.{
  Update, set_gpu_status, inc_check_failure, observe_check_duration,
}
use gpu_dead_node_detector.Common.{
  Effect, Option, ℕ, some, List, ok, Bool, String, for_each, if◌then◌else◌, ◌>>=◌, ◌++◌, [], ◌&&◌,
  with_error, is_none, false, err, none, ◌∷◌, map, pure, true,
}
use gpu_dead_node_detector.Device.System.{System}

-- The trait `IsolationExecutor`.
pub record IsolationExecutor (W : Type 0) : Type 0 where
  pub execute : StateTransition → Effect W Error (Unit {0})

pub record DetectionScheduler (W : Type 0) : Type 0 where
  pub l1_detector : L1PassiveDetector W
  pub l2_detector : L2ActiveDetector W
  pub l3_detector : Option (L3PcieDetector W)
  pub isolation_executor : IsolationExecutor W
  pub healer : Option SelfHealer
  pub l1_interval : ℕ
  pub l2_interval : ℕ
  pub l3_interval : Option ℕ
  -- the system that the healer's commands run in, and the readings of `Utc::now()`
  pub system : System W
  pub clock : W → Clock

module _ {W : Type 0} where
  -- `DetectionScheduler::new`
  unfoldable pub new_scheduler :
      L1PassiveDetector W
      → L2ActiveDetector W
      → IsolationExecutor W
      → ℕ
      → ℕ
      → System W
      → (W → Clock)
      → DetectionScheduler W
  new_scheduler l1 l2 executor l1_interval l2_interval system clock = record {
    l1_detector = l1;
    l2_detector = l2;
    l3_detector = none;
    isolation_executor = executor;
    healer = none;
    l1_interval = l1_interval;
    l2_interval = l2_interval;
    l3_interval = none;
    system = system;
    clock = clock;
  }

  unfoldable pub with_healer : DetectionScheduler W → SelfHealer → DetectionScheduler W
  with_healer s healer = record s { healer = some healer }

  unfoldable pub with_l3 : DetectionScheduler W → L3PcieDetector W → ℕ → DetectionScheduler W
  with_l3 s detector interval = record s {
    l3_detector = some detector;
    l3_interval = some interval;
  }

pub record State (W : Type 0) : Type 0 where
  pub manager : GpuHealthManager
  pub updates : List Update
  pub world : W

-- An operation of the scheduler.
abbrev pub Run : Type 0 → Type 0 → Type 0
Run W A = Effect (State W) Error A

module _ {W : Type 0} where
  -- An operation on the world alone.
  abbrev pub outside : {A : Type 0} → Effect W Error A → Run W A
  outside m st = let (r, w) = m st.world in (r, record st { world = w })

abbrev pub status_update : DeviceId → Option Health.GpuHealth → List Update
status_update d none = []
status_update d (some h) = set_gpu_status d h.state ∷ []

-- What the `select!` of `run` wakes up for: a ticker, or a new value of the shutdown channel.
pub data Event : Type 0 where
  l1_tick l2_tick l3_tick : Event
  shutdown_changed : Bool → Event

module _ {W : Type 0} (s : DetectionScheduler W) where
  -- `manager.process_result`, and the status metric.
  unfoldable pub judge : DetectionResult → State W → StateTransition × State W
  judge r st =
      let (m, done) = Health.process_result st.manager (s.clock st.world) r in
      (
        done,
        record st { manager = m; updates = st.updates ++ status_update r.device (get m r.device) },
      )

  -- The healer's results are logged, whatever they are.
  unfoldable pub attempt_healing : DeviceId → State W → State W
  attempt_healing d st = elim s.healer [
    | none ↦ st
    | some healer ↦
        if is_enabled healer then record st { world = (heal s.system healer d st.world).1 } else st
  ]

  -- `Mark isolation as completed`
  unfoldable pub complete : DeviceId → State W → State W
  complete d st = record st {
    manager = (transition st.manager (s.clock st.world) d isolation_completed).0;
  }

  -- Isolation of a device that has become unhealthy.
  unfoldable pub isolate : DeviceId → StateTransition → Run W (Unit {0})
  unfolding attempt_healing complete
  isolate d done st =
      let (r, st') = outside (s.isolation_executor.execute done) (attempt_healing d st) in
      elim r [ ok _ ↦ (ok tt, complete d st') | err e ↦ (err e, st') ]

  unfoldable pub process_result : DetectionResult → Run W (Unit {0})
  unfolding judge isolate
  process_result r st =
      let (done, st') = judge r st in
      if done.changed && Health.state_eq done.to unhealthy
      then isolate r.device done st'
      else (ok tt, st')

  unfoldable pub failure_updates : String → DetectionResult → List Update
  failure_updates level r =
      if r.passed
      then []
      else map (λ f. inc_check_failure level r.device (debug_finding_type f.finding_type))
          r.findings

  unfoldable pub update_metrics : DetectionResult → Run W (Unit {0})
  unfolding failure_updates
  update_metrics r st = (
    ok tt,
    record st {
      updates =
          st.updates
          ++ observe_check_duration (level_text r.level) r.device (s.system.elapsed st.world)
            ∷ failure_updates (level_text r.level) r;
    },
  )

  -- The loop of the three passes over the results.
  unfoldable pub handle : DetectionResult → Run W (Unit {0})
  unfolding process_result update_metrics
  handle r = do processed ← process_result r; update_metrics r

  unfoldable pub handle_all : List DetectionResult → Run W (Unit {0})
  unfolding handle for_each
  handle_all results = for_each handle results

  unfoldable pub run_l1_detection : Run W (Unit {0})
  unfolding handle_all
  run_l1_detection = do
    results ← outside (with_error from_device (Passive.detect_all s.l1_detector))
    handle_all results

  unfoldable pub run_l2_detection : Run W (Unit {0})
  unfolding handle_all
  run_l2_detection = do
    results ← outside (with_error from_device (Active.detect_all s.l2_detector))
    handle_all results

  unfoldable pub run_l3_detection : Run W (Unit {0})
  unfolding handle_all
  run_l3_detection = elim s.l3_detector [
    | none ↦ pure tt
    | some detector ↦ do
      results ← outside (with_error from_device (Pcie.detect_all detector))
      handle_all results
  ]

  unfoldable pub run_once : Run W (Unit {0})
  unfolding run_l1_detection run_l2_detection run_l3_detection
  run_once = do first ← run_l1_detection; second ← run_l2_detection; run_l3_detection

  -- One handler; its error is logged. Without an L3 interval the third branch is never ready.
  unfoldable pub on_event : Event → State W → State W
  unfolding run_l1_detection run_l2_detection run_l3_detection
  on_event l1_tick st = (run_l1_detection st).1
  on_event l2_tick st = (run_l2_detection st).1
  on_event l3_tick st = if is_none s.l3_interval then st else (run_l3_detection st).1
  on_event (shutdown_changed b) st = st

  -- The loop, over the events in the order in which they are taken; `true` once it has ended.
  unfoldable pub run : List Event → State W → Bool × State W
  unfolding on_event
  run [] st = (false, st)
  run (shutdown_changed true ∷ events) st = (true, st)
  run (shutdown_changed false ∷ events) st = run events st
  run (l1_tick ∷ events) st = run events (on_event l1_tick st)
  run (l2_tick ∷ events) st = run events (on_event l2_tick st)
  run (l3_tick ∷ events) st = run events (on_event l3_tick st)
