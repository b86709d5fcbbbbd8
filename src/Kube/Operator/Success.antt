-- ===== src/Kube/Operator/Success.antt =====
-- The operator on a cluster whose API server answers.
use gpu_dead_node_detector.Health.{
  IsolationAction, cordon, uncordon, taint, remove_taint, evict_pods, alert,
}
use gpu_dead_node_detector.Kube.{Api, Patch, unschedulable_patch, Pod, taints_patch, taints_of}
use gpu_dead_node_detector.Kube.Client
use gpu_dead_node_detector.Kube.Operator.{
  NodeOperator, execute_action, execute_actions, evict_all, evict_one, cordon_self, uncordon_self,
  add_taint, remove_taint_self, send_alert,
}
use gpu_dead_node_detector.Common.{
  [], ◌∷◌, refl, ok, is_ok, true, false, ◌≡◌, String, for_each, Result-cases, arith, List, inl, inr,
  ok_answer, ◌++◌,
}
use gpu_dead_node_detector.Kube.Client.Effects.{without_taint, new_taint}

-- Every request but an eviction succeeds.
pub record IsUp {W : Type 0} (api : Api W) : Type 0 where
  pub gets : (n : String) (w : W) → is_ok (api.get_node n w).0 ≡ true
  pub patches : (n : String) (p : Patch) (w : W) → is_ok (api.patch_node n p w).0 ≡ true
  pub lists : (field : String) (w : W) → is_ok (api.list_pods field w).0 ≡ true

module _ {W : Type 0} (op : NodeOperator W) (up : IsUp op.api) where
  evict_each_ok : (pods : List Pod) (w : W) → (for_each (evict_one op) pods w).0 ≡ ok tt
  unfolding for_each evict_one
  evict_each_ok [] w = refl
  evict_each_ok (p ∷ pods) w =
      ground (arith, evict_each_ok pods w, evict_each_ok pods (evict_one op p w).1)

  evict_all_ok : (w : W) → (evict_all op w).0 ≡ ok tt
  unfolding evict_all Client.list_pods_on_node
  evict_all_ok w =
      let pods = op.api.list_pods (Client.about "spec.nodeName=" op.node_name) w in
      elim (Result-cases pods.0) [
        | inl (listed, e) ↦ rw e (evict_each_ok listed pods.1)
        | inr (e, failed) ↦
            let answered = up.lists (Client.about "spec.nodeName=" op.node_name) w in
            ground (arith, answered, failed)
      ]

  add_taint_ok : (key value effect : String) (w : W) → (add_taint op key value effect w).0 ≡ ok tt
  unfolding add_taint Client.add_taint Client.get_node
  add_taint_ok key value effect w =
      let node = op.api.get_node op.node_name w in
      let (n, e) = ok_answer node.0 (up.gets op.node_name w) in
      let patched = taints_patch (taints_of n ++ new_taint key value effect ∷ []) in
      ground (arith, e, up.patches op.node_name patched node.1)

  remove_taint_ok : (key : String) (w : W) → (remove_taint_self op key w).0 ≡ ok tt
  unfolding remove_taint_self Client.remove_taint Client.get_node
  remove_taint_ok key w =
      let node = op.api.get_node op.node_name w in
      let (n, e) = ok_answer node.0 (up.gets op.node_name w) in
      let patched = taints_patch (without_taint key (taints_of n)) in
      ground (arith, e, up.patches op.node_name patched node.1)

  execute_action_ok : (a : IsolationAction) (w : W) → (execute_action op a w).0 ≡ ok tt
  unfolding execute_action Client.cordon_node Client.uncordon_node cordon_self uncordon_self
      send_alert
  execute_action_ok cordon w = ground (arith, up.patches op.node_name (unschedulable_patch true) w)
  execute_action_ok uncordon w =
      ground (arith, up.patches op.node_name (unschedulable_patch false) w)
  execute_action_ok (taint key value effect) w = add_taint_ok key value effect w
  execute_action_ok (remove_taint key) w = remove_taint_ok key w
  execute_action_ok evict_pods w = ground (arith, evict_all_ok w)
  execute_action_ok (alert message severity) w = refl

  -- With an API server that answers every request but evictions, any actions are executed to the end
  -- without an error; an eviction that is refused does not count as one.
  pub execute_actions_ok :
      (actions : List IsolationAction) (w : W) → (execute_actions op actions w).0 ≡ ok tt
  unfolding execute_actions for_each
  execute_actions_ok [] w = refl
  execute_actions_ok (a ∷ actions) w =
      ground (arith, execute_action_ok a w, execute_actions_ok actions (execute_action op a w).1)
