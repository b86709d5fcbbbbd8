-- ===== src/Main/EndToEnd.antt =====
-- From a fatal result to the node: the assembled scheduler, the node operator and the cluster.
use gpu_dead_node_detector.Scheduler.Outcome.{world-process_result}
use gpu_dead_node_detector.Health
use gpu_dead_node_detector.Common.{
  ap, true, ok, if◌then◌else◌, sym, result_cases, ◌≡◌, String, ◌⊎◌, ◌≢◌, arith, ◌∙◌, false,
}
use gpu_dead_node_detector.Health.{
  healthy, suspected, unhealthy, isolated, HealthState, GpuHealthManager, HealthEvent, Clock,
  isolation_actions, event_of, StateTransition,
}
use gpu_dead_node_detector.Scheduler.{
  process_result, attempt_healing, judge, State, DetectionScheduler,
}
use gpu_dead_node_detector.Device.{DeviceId, DeviceInterface}
use gpu_dead_node_detector.Config.{Config}
use gpu_dead_node_detector.Detection.{DetectionResult, has_fatal_finding}
use gpu_dead_node_detector.Main.{Surroundings, node_operator, assemble, to_k8s_isolation_config}
use gpu_dead_node_detector.Health.Diagram.{actions_for, state_of, findings_of, transition_report}
use gpu_dead_node_detector.Kube.{Api, Server, is_cordoned, taints_of}
use gpu_dead_node_detector.Kube.Client.Effects.{with_taint}
use gpu_dead_node_detector.Kube.Operator.Isolation.{failed_taint, isolation_applied}
use gpu_dead_node_detector.Health.Checks.{state_of-process_result_fatal}
use gpu_dead_node_detector.Scheduler.Isolation.{newly_unhealthy_isolated}
use gpu_dead_node_detector.Kube.Operator.{execute_actions}
use gpu_dead_node_detector.Main.DryRun.{execute_assembled}
use gpu_dead_node_detector.Kube.Operator.Success.{IsUp, execute_actions_ok}

in_service : (h : HealthState) → (h ≡ healthy) ⊎ (h ≡ suspected) → h ≢ unhealthy
in_service h was = ground arith

actions_of :
    (d : DeviceId) (e : HealthEvent) (before after : HealthState)
    → (before ≡ healthy) ⊎ (before ≡ suspected)
    → after ≡ unhealthy
    → actions_for d e before after ≡ isolation_actions d (findings_of e)
actions_of d e before after was is = ground arith

-- The report of a result that condemns a device carries the isolation actions.
pub actions-process_result :
    (m : GpuHealthManager) (clock : Clock) (r : DetectionResult)
    → (state_of m r.device ≡ healthy) ⊎ (state_of m r.device ≡ suspected)
    → state_of (Health.process_result m clock r).0 r.device ≡ unhealthy
    → (Health.process_result m clock r).1.actions
      ≡ isolation_actions r.device (findings_of (event_of r))
unfolding Health.process_result
actions-process_result m clock r was is =
    let report = transition_report m clock r.device (event_of r) in
    report.3 ∙ actions_of r.device (event_of r) _ _ was is

-- On a cluster whose API server answers, the assembled executor succeeds.
pub execute_ok :
    {W : Type 0} (c : Config) (name : String) (around : Surroundings W) (device : DeviceInterface W)
    (api : Api W)
    → IsUp api
    → (done : StateTransition) (w : W)
    → ((assemble c name around device api).isolation_executor.execute done w).0 ≡ ok tt
execute_ok c name around device api up done w =
    ap (λ p. p.0) (execute_assembled c name around device api done w)
    ∙ execute_actions_ok (node_operator c name api) (unfold node_operator in up) done.actions w

module _ {W : Type 0} (c : Config) (name : String) (around : Surroundings W)
    (device : DeviceInterface W) (api : Api W) (server : Server api) (r : DetectionResult)
    (st : State W) where
  open server use {stored}

  abbrev scheduler : DetectionScheduler W
  scheduler = assemble c name around device api

  -- A failed result with a fatal finding, of a device that is healthy or suspected, outside a dry run
  -- and with an API server that answers: its handling by the assembled scheduler ends without an
  -- error, the device is isolated, the stored node is cordoned where the configuration says so and as
  -- schedulable as healing left it otherwise, and has the taint nvidia.com/gpu-health besides the
  -- taints that it had.
  pub fatal_result_isolates_node :
      c.dry_run ≡ false
      → IsUp api
      → r.passed ≡ false
      → has_fatal_finding r ≡ true
      → (state_of st.manager r.device ≡ healthy) ⊎ (state_of st.manager r.device ≡ suspected)
      → let healed = (attempt_healing scheduler r.device (judge scheduler r st).1).world in
        let (answer, final) = process_result scheduler r st in
        (answer ≡ ok tt)
        × (state_of final.manager r.device ≡ isolated)
        × (is_cordoned (stored name final.world)
            ≡ (if c.isolation.cordon then true else is_cordoned (stored name healed)))
        × (taints_of (stored name final.world)
            ≡ with_taint failed_taint (taints_of (stored name healed)))
  unfolding node_operator to_k8s_isolation_config
  fatal_result_isolates_node wet up failed fatal was =
      let op = node_operator c name api in
      let is =
        state_of-process_result_fatal st.manager (scheduler.clock st.world) r failed fatal was in
      let healed = (attempt_healing scheduler r.device (judge scheduler r st).1).world in
      let report = (Health.process_result st.manager (scheduler.clock st.world) r).1 in
      let (answer, state) = newly_unhealthy_isolated scheduler r st (in_service _ was) is in
      let world = world-process_result scheduler r st (in_service _ was) is in
      let actions = actions-process_result st.manager (scheduler.clock st.world) r was is in
      let runs : scheduler.isolation_executor.execute report healed
          ≡ execute_actions op (isolation_actions r.device (findings_of (event_of r))) healed =
        execute_assembled c name around device api report healed
        ∙ ap (λ a. execute_actions op a healed) actions in
      let ran = execute_ok c name around device api up report healed in
      let (cordoned, tainted) =
        isolation_applied op server r.device (findings_of (event_of r)) healed wet
          (ap (λ p. p.0) (sym runs) ∙ ran) in
      let left = world ∙ ap (λ p. p.1) runs in
      (
        answer ∙ ran,
        state ∙ ap (result_cases (λ done. isolated) (λ e. unhealthy)) ran,
        rw left cordoned,
        rw left tainted,
      )
