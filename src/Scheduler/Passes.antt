-- ===== src/Scheduler/Passes.antt =====
-- A pass over any results, with any executor: the automaton of each device, and where a pass stops.
use gpu_dead_node_detector.Scheduler.Handled.{is_about, take_all}
use gpu_dead_node_detector.Common.{
  false, ok, ◌∷◌, ◌++◌, List, ◌≢◌, ◌≡◌, if◌then◌else◌, ◌⊎◌, is_ok, Result,
}
use gpu_dead_node_detector.Health.Status.{condemned, Policy, state_in, status_of, policy}
use gpu_dead_node_detector.Detection.{DetectionResult}
use gpu_dead_node_detector.Device.{DeviceId, Error}
use gpu_dead_node_detector.Health.{GpuHealthManager, thresholds, unhealthy, StateTransition}
use gpu_dead_node_detector.Scheduler.{DetectionScheduler, State, handle_all}
use gpu_dead_node_detector.Scheduler.Isolation.{before}

-- Every device's status is what the automaton makes of its own results, in their order.
abbrev pub TakesAll : Policy → List DetectionResult → GpuHealthManager → GpuHealthManager → Type 0
TakesAll p results m n = (d : DeviceId) → status_of n d ≡ take_all p d results (status_of m d)

-- The executor has failed on one result: those before it are taken, its device, which was not
-- unhealthy until then, is condemned, and those after it have no effect.
abbrev pub Stops :
    {W : Type 0}
    → DetectionScheduler W
    → Policy
    → List DetectionResult
    → GpuHealthManager
    → Result Error (Unit {0})
    → GpuHealthManager
    → Type 0
Stops {W} s p results m answer n =
    (before after : List DetectionResult) × (r : DetectionResult) × (results ≡ before ++ r ∷ after)
    × (is_ok answer ≡ false)
    × ((done : StateTransition) × (w : W) × ((s.isolation_executor.execute done w).0 ≡ answer))
    × (state_in (take_all p r.device before (status_of m r.device)) ≢ unhealthy)
    × ((d : DeviceId)
        → status_of n d ≡ (if is_about r d then condemned else take_all p d before (status_of m d)))

module _ {W : Type 0} (s : DetectionScheduler W) where
  abbrev Refines : List DetectionResult → State W → Type 0
  Refines results st =
      let (answer, final) = handle_all s results st in
      let p = policy (thresholds st.manager) in
      ((answer ≡ ok tt) × TakesAll p results st.manager final.manager)
      ⊎ Stops s p results st.manager answer final.manager
