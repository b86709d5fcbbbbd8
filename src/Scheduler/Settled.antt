-- ===== src/Scheduler/Settled.antt =====
-- With an executor that does not fail, no device is left unhealthy.
use gpu_dead_node_detector.Scheduler.Outcome.{manager-process_result}
use gpu_dead_node_detector.Health
use gpu_dead_node_detector.Scheduler.{process_result, DetectionScheduler, State, Event, run}
use gpu_dead_node_detector.Health.{
  unhealthy, isolated, isolation_completed, GpuHealthManager, get, StateTransition, device_key,
  state_eq, HealthState, transition, event_of,
}
use gpu_dead_node_detector.Health.Diagram.{
  state_of, state_of_key, get-transition_ne, state_of-completion, state_of-get,
}
use gpu_dead_node_detector.Device.{DeviceId}
use gpu_dead_node_detector.Common.{
  ◌≢◌, is_ok, ◌≡◌, Bool-cases, true, str_eq, List, inl, eq_iff, inr, ◌∙◌, arith, false, sym,
}
use gpu_dead_node_detector.Detection.{DetectionResult}
use gpu_dead_node_detector.Scheduler.Keeps.{run_keeps_manager}
use gpu_dead_node_detector.Scheduler.Isolation.{only_recorded}
use gpu_dead_node_detector.Health.Checks.{get-process_result_ne}

-- No device is unhealthy.
abbrev pub IsSettled : GpuHealthManager → Type 0
IsSettled m = (d : DeviceId) → state_of m d ≢ unhealthy

-- A change of one device's record that leaves it in another state.
IsSettled-after :
    (m n : GpuHealthManager) (d : DeviceId)
    → IsSettled m
    → state_of n d ≢ unhealthy
    → ((other : DeviceId) → device_key d ≢ device_key other → get n other ≡ get m other)
    → IsSettled n
unfolding state_of get
IsSettled-after m n d settled own others other =
    elim (Bool-cases (str_eq (device_key d) (device_key other))) [
      | inl same ↦
          let k : device_key d ≡ device_key other =
            (eq_iff (device_key d) (device_key other)).0 same in
          λ bad. own (state_of_key n d other k ∙ bad)
      | inr differ ↦
          let e =
            others other (λ k. ground (arith, differ, eq_iff (device_key d) (device_key other))) in
          λ bad. settled other (sym (state_of-get m n other e) ∙ bad)
    ]

is_unhealthy : (h : HealthState) → state_eq h unhealthy ≡ true → h ≡ unhealthy
unfolding state_eq
is_unhealthy h e = ground arith

not_unhealthy : (h : HealthState) → state_eq h unhealthy ≡ false → h ≢ unhealthy
unfolding state_eq
not_unhealthy h e = ground arith

module _ {W : Type 0} (s : DetectionScheduler W)
    (executes : (done : StateTransition) (w : W)
      → is_ok (s.isolation_executor.execute done w).0 ≡ true) where
  condemned_result :
      (r : DetectionResult) (st : State W)
      → IsSettled st.manager
      → state_of (Health.process_result st.manager (s.clock st.world) r).0 r.device ≡ unhealthy
      → IsSettled (process_result s r st).1.manager
  condemned_result r st settled bad =
      let m = st.manager in
      let n = (Health.process_result m (s.clock st.world) r).0 in
      let (c, e) = manager-process_result s r st (settled r.device) bad (executes _ _) in
      let cut : state_of (transition n c r.device isolation_completed).0 r.device ≡ isolated =
        rw (state_of-completion n c r.device, bad) in
      rw e (
        IsSettled-after m (transition n c r.device isolation_completed).0 r.device settled
          (λ worse. ground (arith, cut, worse))
          (λ other differ.
            get-transition_ne n c r.device other isolation_completed differ
            ∙ get-process_result_ne m (s.clock st.world) r other differ))

  process_result-IsSettled :
      (r : DetectionResult) (st : State W)
      → IsSettled st.manager
      → IsSettled (process_result s r st).1.manager
  process_result-IsSettled r st settled =
      let m = st.manager in
      let n = (Health.process_result m (s.clock st.world) r).0 in
      elim (Bool-cases (state_eq (state_of n r.device) unhealthy)) [
        | inl bad ↦ condemned_result r st settled (is_unhealthy _ bad)
        | inr good ↦
            let fine = not_unhealthy _ good in
            let (answer, manager, world) = only_recorded s r st (inr fine) in
            rw manager (
              IsSettled-after m n r.device settled fine
                (get-process_result_ne m (s.clock st.world) r))
      ]

  -- Where the executor never fails, the loop leaves no device unhealthy, whatever its events, if none
  -- was unhealthy at its start: what condemns a device isolates it in the same step.
  pub run-IsSettled :
      (events : List Event) (st : State W)
      → IsSettled st.manager
      → IsSettled (run s events st).1.manager
  run-IsSettled events st settled =
      run_keeps_manager s IsSettled process_result-IsSettled events st settled
