-- ===== src/Kube/Operator/Isolation.antt =====
-- What the actions of a health transition do to the node.
use gpu_dead_node_detector.Device.{DeviceId}
use gpu_dead_node_detector.Health.{isolation_actions, recovery_actions, gpu_health_taint}
use gpu_dead_node_detector.Kube.{Server, is_cordoned, taints_of, Taint}
use gpu_dead_node_detector.Kube.Client
use gpu_dead_node_detector.Kube.Client.Effects.{
  new_taint, with_taint, without_taint, stored-cordon_node, stored-uncordon_node, stored-add_taint,
  stored-remove_taint, has_taint,
}
use gpu_dead_node_detector.Kube.Operator.{NodeOperator, execute_actions, IsolationConfig}
use gpu_dead_node_detector.Common.{
  List, ◌≡◌, false, ok, if◌then◌else◌, arith, true, String, ◌++◌, ◌∙◌, ◌∷◌, [], eq_refl, refl,
}
use gpu_dead_node_detector.Detection.{Finding}

abbrev pub failed_taint : Taint
failed_taint = new_taint gpu_health_taint "failed" "NoSchedule"

module _ {W : Type 0} (op : NodeOperator W) (server : Server op.api) where
  open server use {stored}

  -- If the isolation actions are executed without an error, outside a dry run, the node is cordoned
  -- where the configuration says so and otherwise as schedulable as before, and it has the taint
  -- nvidia.com/gpu-health besides the taints that it had.
  pub isolation_applied :
      (d : DeviceId) (findings : List Finding) (w : W)
      → op.dry_run ≡ false
      → (execute_actions op (isolation_actions d findings) w).0 ≡ ok tt
      → let before = stored op.node_name w in
        let after = stored op.node_name (execute_actions op (isolation_actions d findings) w).1 in
        (is_cordoned after ≡ (if op.config.cordon then true else is_cordoned before))
        × (taints_of after ≡ with_taint failed_taint (taints_of before))
  unfolding execute_actions isolation_actions
  isolation_applied d findings w wet done =
      let cordoned = (Client.cordon_node op.api op.node_name w).1 in
      ground (
        arith,
        stored-cordon_node op.api server op.node_name w,
        stored-add_taint op.api server op.node_name gpu_health_taint "failed" "NoSchedule" w,
        stored-add_taint op.api server op.node_name gpu_health_taint "failed" "NoSchedule" cordoned,
      )

  -- If the recovery actions are executed without an error, outside a dry run, the node is
  -- schedulable, whether the configuration cordons or not, and every taint with the key
  -- nvidia.com/gpu-health is gone, the others being kept.
  pub recovery_applied :
      (d : DeviceId) (w : W)
      → op.dry_run ≡ false
      → (execute_actions op (recovery_actions d) w).0 ≡ ok tt
      → let before = stored op.node_name w in
        let after = stored op.node_name (execute_actions op (recovery_actions d) w).1 in
        (is_cordoned after ≡ false)
        × (taints_of after ≡ without_taint gpu_health_taint (taints_of before))
  unfolding execute_actions recovery_actions
  recovery_applied d w wet done =
      let untainted = (Client.remove_taint op.api op.node_name gpu_health_taint w).1 in
      ground (
        arith,
        stored-remove_taint op.api server op.node_name gpu_health_taint w,
        stored-uncordon_node op.api server op.node_name untainted,
      )

-- The configured taint and the switch for evictions have no influence on what an isolation does:
-- two operators that differ in them alone execute its actions alike.
pub taint_settings_ignored :
    {W : Type 0} (op : NodeOperator W) (config : IsolationConfig) (d : DeviceId)
    (findings : List Finding) (w : W)
    → config.cordon ≡ op.config.cordon
    → execute_actions (record op { config = config }) (isolation_actions d findings) w
      ≡ execute_actions op (isolation_actions d findings) w
unfolding execute_actions isolation_actions
taint_settings_ignored op config d findings w same = rw same

without_absent :
    (key : String) (ts : List Taint) → has_taint key ts ≡ false → without_taint key ts ≡ ts
without_absent key [] h = refl
without_absent key (t ∷ ts) h = ground (arith, without_absent key ts)

without_added :
    (t : Taint) (ts : List Taint)
    → has_taint t.key ts ≡ false
    → without_taint t.key (ts ++ t ∷ []) ≡ ts
without_added t [] h = rw eq_refl
without_added t (u ∷ ts) h = ground (arith, without_added t ts)

without_with :
    (t : Taint) (ts : List Taint)
    → has_taint t.key ts ≡ false
    → without_taint t.key (with_taint t ts) ≡ ts
without_with t ts h = rw h (without_added t ts h)

-- Recovery after isolation, both executed without an error outside a dry run, gives a node that had
-- no taint with the key nvidia.com/gpu-health its taints back, and makes it schedulable.
pub recovery_undoes_isolation :
    {W : Type 0} (op : NodeOperator W) (server : Server op.api) (d : DeviceId)
    (findings : List Finding) (w : W)
    → op.dry_run ≡ false
    → has_taint gpu_health_taint (taints_of (server.stored op.node_name w)) ≡ false
    → (execute_actions op (isolation_actions d findings) w).0 ≡ ok tt
    → (execute_actions op
        (recovery_actions d)
        (execute_actions op (isolation_actions d findings) w).1).0
      ≡ ok tt
    → let isolated = (execute_actions op (isolation_actions d findings) w).1 in
      let after = server.stored op.node_name (execute_actions op (recovery_actions d) isolated).1 in
      (is_cordoned after ≡ false) × (taints_of after ≡ taints_of (server.stored op.node_name w))
recovery_undoes_isolation op server d findings w wet untainted done restored =
    let isolation = isolation_applied op server d findings w wet done in
    let recovery =
      recovery_applied op server d (execute_actions op (isolation_actions d findings) w).1 wet
        restored in
    (
      recovery.0,
      recovery.1
          ∙ rw isolation.1
              (without_with failed_taint (taints_of (server.stored op.node_name w)) untainted),
    )
