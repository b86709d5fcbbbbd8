-- ===== src/Scheduler/Shown.antt =====
-- What the status gauge shows of a device after the handling of one of its results.
use gpu_dead_node_detector.Health
use gpu_dead_node_detector.Common.{
  some, ◌≡◌, arith, ◌++◌, ◌∷◌, [], ◌⊎◌, ◌∙◌, ap, none, inl, inr, result_cases, sym, Result,
}
use gpu_dead_node_detector.Scheduler.{
  process_result, judge, isolate, complete, attempt_healing, DetectionScheduler, State,
  status_update,
}
use gpu_dead_node_detector.Health.{unhealthy, isolated, transition, StateTransition, HealthState}
use gpu_dead_node_detector.Device.{DeviceId, Error}
use gpu_dead_node_detector.Detection.{DetectionResult}
use gpu_dead_node_detector.Health.Diagram.{state_of}
use gpu_dead_node_detector.Metrics.{set_gpu_status, status_value}
use gpu_dead_node_detector.Metrics.Gauges.{shown_status, shown_after-set_gpu_status}
use gpu_dead_node_detector.Health.Checks.{get-process_result}
use gpu_dead_node_detector.Scheduler.Isolation.{
  only_recorded, falls-cases, newly_unhealthy_isolated,
}

updates-isolate :
    {W : Type 0} (s : DetectionScheduler W) (d : DeviceId) (done : StateTransition) (st : State W)
    → (isolate s d done st).1.updates ≡ st.updates
unfolding isolate complete attempt_healing
updates-isolate s d done st = ground arith

updates-process_result :
    {W : Type 0} (s : DetectionScheduler W) (r : DetectionResult) (st : State W)
    → (process_result s r st).1.updates ≡ (judge s r st).1.updates
unfolding process_result
updates-process_result s r st =
    ground (arith, updates-isolate s r.device (judge s r st).0 (judge s r st).1)

updates-judge :
    {W : Type 0} (s : DetectionScheduler W) (r : DetectionResult) (st : State W)
    → let n = (Health.process_result st.manager (s.clock st.world) r).0 in
      (judge s r st).1.updates ≡ st.updates ++ set_gpu_status r.device (state_of n r.device) ∷ []
unfolding judge
updates-judge s r st =
    let (h, found, same) = get-process_result st.manager (s.clock st.world) r in
    ap (λ found. st.updates ++ status_update r.device found) found
    ∙ ap (λ state. st.updates ++ set_gpu_status r.device state ∷ []) same

isolation-cases :
    (state : HealthState) (r : Result Error (Unit {0}))
    → state ≡ result_cases (λ done. isolated) (λ e. unhealthy) r
    → (state ≡ isolated) ⊎ (state ≡ unhealthy)
isolation-cases state r e = ground arith

module _ {W : Type 0} (s : DetectionScheduler W) (r : DetectionResult) (st : State W) where
  -- The status gauge of a result's device shows, once the result has been handled, the state that the
  -- result has led to. That is the device's state in the end too, unless the device was isolated in
  -- this handling: then the gauge still shows unhealthy.
  pub shown_status-process_result :
      let judged = state_of (Health.process_result st.manager (s.clock st.world) r).0 r.device in
      let final = (process_result s r st).1 in
      (shown_status r.device final.updates ≡ some (status_value judged))
      × ((state_of final.manager r.device ≡ judged)
          ⊎ ((judged ≡ unhealthy) × (state_of final.manager r.device ≡ isolated)))
  shown_status-process_result =
      let m = st.manager in
      let n = (Health.process_result m (s.clock st.world) r).0 in
      let shown = updates-process_result s r st ∙ updates-judge s r st in
      (
        ap (shown_status r.device) shown ∙ shown_after-set_gpu_status r.device none st.updates _,
        elim (falls-cases (state_of m r.device) (state_of n r.device)) [
          | inl (was, is) ↦
              let (answer, state) = newly_unhealthy_isolated s r st was is in
              elim (isolation-cases _ _ state) [
                | inl isolated_now ↦ inr (is, isolated_now)
                | inr still ↦ inl (still ∙ sym is)
              ]
          | inr stays ↦ inl (ap (λ m. state_of m r.device) (only_recorded s r st stays).1)
        ],
      )
