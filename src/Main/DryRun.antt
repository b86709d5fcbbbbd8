-- ===== src/Main/DryRun.antt =====
-- A dry run of the assembled program.
use gpu_dead_node_detector.Config.{Config}
use gpu_dead_node_detector.Main.{assemble, Surroundings, node_operator_executor, node_operator}
use gpu_dead_node_detector.Common.{
  String, ◌≡◌, ok, any, Bool-cases, false, true, arith, inl, inr, ◌∙◌,
}
use gpu_dead_node_detector.Health.{
  isolation_actions, recovery_actions, HealthEvent, HealthState, GpuHealthManager, Clock,
  transition, StateTransition,
}
use gpu_dead_node_detector.Device.{DeviceId, DeviceInterface}
use gpu_dead_node_detector.Scheduler.{new_scheduler, with_healer, with_l3}
use gpu_dead_node_detector.Kube.{Api}
use gpu_dead_node_detector.Kube.Operator.DryRun.{is_evict, execute_actions-dry}
use gpu_dead_node_detector.Health.Diagram.{actions_for, transition_report}
use gpu_dead_node_detector.Kube.Operator.{execute_actions}

no_evict :
    (d : DeviceId) (e : HealthEvent) (from to : HealthState)
    → any is_evict (actions_for d e from to) ≡ false
unfolding isolation_actions recovery_actions
no_evict d e from to = ground arith

pub execute_assembled :
    {W : Type 0} (c : Config) (name : String) (around : Surroundings W) (device : DeviceInterface W)
    (api : Api W) (done : StateTransition) (w : W)
    → (assemble c name around device api).isolation_executor.execute done w
      ≡ execute_actions (node_operator c name api) done.actions w
unfolding assemble node_operator_executor node_operator new_scheduler with_healer with_l3
execute_assembled c name around device api done w = elim (Bool-cases c.healing.enabled) [
  | inl h ↦ elim (Bool-cases c.l3_enabled) [ inl l ↦ rw (h, l) | inr l ↦ rw (h, l) ]
  | inr h ↦ elim (Bool-cases c.l3_enabled) [ inl l ↦ rw (h, l) | inr l ↦ rw (h, l) ]
]

-- In a dry run the assembled executor answers every report of the health manager with success and
-- leaves the world as it is: no request reaches the API server.
pub dry_run_harmless :
    {W : Type 0} (c : Config) (name : String) (around : Surroundings W) (device : DeviceInterface W)
    (api : Api W) (m : GpuHealthManager) (clock : Clock) (d : DeviceId) (event : HealthEvent)
    (w : W)
    → c.dry_run ≡ true
    → (assemble c name around device api).isolation_executor.execute
        (transition m clock d event).1
        w
      ≡ (ok tt, w)
unfolding node_operator
dry_run_harmless c name around device api m clock d event w dry =
    let op = node_operator c name api in
    let done = (transition m clock d event).1 in
    let quiet : any is_evict done.actions ≡ false =
      rw (transition_report m clock d event).3 (no_evict d event _ _) in
    execute_assembled c name around device api done w
    ∙ execute_actions-dry op done.actions w dry quiet
