-- ===== src/Scheduler/Refines.antt =====
-- To the manager, the loop is a sequence of events.
use gpu_dead_node_detector.Scheduler.Outcome.{manager-process_result_cases}
use gpu_dead_node_detector.Health
use gpu_dead_node_detector.Common.{◌≡◌, ◌++◌, ◌∷◌, [], refl, inl, inr, false, List, ap, ◌∙◌, sym}
use gpu_dead_node_detector.Scheduler.{process_result, DetectionScheduler, State, Event, run}
use gpu_dead_node_detector.Health.{
  GpuHealthManager, Clock, HealthEvent, event_of, transition, isolation_completed,
}
use gpu_dead_node_detector.Health.Traces.{replay, Occurrence, replay-append, replay-IsValid}
use gpu_dead_node_detector.Detection.{DetectionResult}
use gpu_dead_node_detector.Device.{DeviceId}
use gpu_dead_node_detector.Health.Invariant.{IsValid}
use gpu_dead_node_detector.Scheduler.Keeps.{run_keeps_manager}
use gpu_dead_node_detector.Health.Recovery.{IsCutOff, isolated_forever}
use gpu_dead_node_detector.Health.Status.{status_of}

-- A manager that comes out of another by a sequence of events.
abbrev pub Follows : GpuHealthManager → GpuHealthManager → Type 0
Follows m n = (os : List Occurrence) × (n ≡ replay m os)

Follows-transition :
    (m n : GpuHealthManager) (c : Clock) (d : DeviceId) (e : HealthEvent)
    → Follows m n
    → Follows m (transition n c d e).0
unfolding replay
Follows-transition m n c d e (os, same) =
    let o : Occurrence = record { clock = c; device = d; event = e } in
    (os ++ o ∷ [], ap (λ m. (transition m c d e).0) same ∙ sym (replay-append m os (o ∷ [])))

module _ {W : Type 0} (s : DetectionScheduler W) where
  process_result-Follows :
      (m : GpuHealthManager) (r : DetectionResult) (st : State W)
      → Follows m st.manager
      → Follows m (process_result s r st).1.manager
  unfolding Health.process_result
  process_result-Follows m r st follows =
      let now = s.clock st.world in
      let judged = Follows-transition m st.manager now r.device (event_of r) follows in
      elim (manager-process_result_cases s r st) [
        | inl e ↦ rw e judged
        | inr (c, e) ↦ rw e (Follows-transition m _ c r.device isolation_completed judged)
      ]

  -- Whatever the detectors, the commands and the executor do and in whatever order the ticks come,
  -- the loop leaves the manager that some sequence of calls of `transition` makes of the one at the
  -- start: all that holds of such sequences holds of the loop.
  run_refines :
      (events : List Event) (st : State W)
      → (os : List Occurrence) × ((run s events st).1.manager ≡ replay st.manager os)
  unfolding replay
  run_refines events st =
      run_keeps_manager s (Follows st.manager) (process_result-Follows st.manager) events st
        ([], refl)

  -- Whatever the detectors, the commands and the executor answer, and in whatever order the ticks
  -- come, the loop keeps the manager valid.
  pub run-IsValid :
      (events : List Event) (st : State W)
      → IsValid st.manager
      → IsValid (run s events st).1.manager
  run-IsValid events st v =
      let (os, same) = run_refines events st in rw same (replay-IsValid st.manager os v)

  -- Where recovery is disabled, the loop never brings back a device that is isolated in a valid
  -- manager, whatever its events and whatever the detectors answer.
  pub run_isolated_forever :
      (events : List Event) (st : State W) (d : DeviceId)
      → IsValid st.manager
      → st.manager.recovery_enabled ≡ false
      → IsCutOff (status_of st.manager d)
      → IsCutOff (status_of (run s events st).1.manager d)
  run_isolated_forever events st d v disabled start =
      let (os, same) = run_refines events st in
      rw same (isolated_forever st.manager os d v disabled start)
