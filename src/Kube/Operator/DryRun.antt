-- ===== src/Kube/Operator/DryRun.antt =====
-- A dry run changes nothing.
use gpu_dead_node_detector.Health.{IsolationAction, evict_pods}
use gpu_dead_node_detector.Kube.Operator.{
  NodeOperator, execute_action, execute_actions, evict_all, evict_one,
}
use gpu_dead_node_detector.Common.{
  Bool, ◌≡◌, List, for_each, true, false, any, ok, arith, ◌∷◌, [], refl, Result, String, err,
}
use gpu_dead_node_detector.Kube.Client.{list_pods_on_node, about}
use gpu_dead_node_detector.Kube.{Pod}

abbrev pub is_evict : IsolationAction → Bool
is_evict evict_pods = true
is_evict _ = false

module _ {W : Type 0} (op : NodeOperator W) where
  execute_action-dry :
      (a : IsolationAction) (w : W)
      → op.dry_run ≡ true
      → is_evict a ≡ false
      → execute_action op a w ≡ (ok tt, w)
  unfolding execute_action
  execute_action-dry a w dry no_evict = ground arith

  -- In a dry run any actions but evictions succeed without a request to the API server.
  pub execute_actions-dry :
      (actions : List IsolationAction) (w : W)
      → op.dry_run ≡ true
      → any is_evict actions ≡ false
      → execute_actions op actions w ≡ (ok tt, w)
  unfolding execute_actions
  execute_actions-dry [] w dry h = refl
  execute_actions-dry (a ∷ actions) w dry h =
      ground (arith, execute_action-dry a w dry, execute_actions-dry actions w dry)

  dry_each :
      (pods : List Pod) (w : W) → op.dry_run ≡ true → for_each (evict_one op) pods w ≡ (ok tt, w)
  unfolding for_each evict_one
  dry_each [] w dry = refl
  dry_each (p ∷ pods) w dry = ground (arith, dry_each pods w dry)

  abbrev IsQuiet : Result String (List Pod) → W → Type 0
  IsQuiet (ok pods) w = for_each (evict_one op) pods w ≡ (ok tt, w)
  IsQuiet (err e) w = Unit

  pods-IsQuiet : (r : Result String (List Pod)) (w : W) → op.dry_run ≡ true → IsQuiet r w
  pods-IsQuiet (ok pods) w dry = dry_each pods w dry
  pods-IsQuiet (err e) w dry = tt

  -- An eviction in a dry run requests the list of pods, and nothing else.
  pub evict_all-dry :
      (w : W)
      → op.dry_run ≡ true
      → (evict_all op w).1 ≡ (op.api.list_pods (about "spec.nodeName=" op.node_name) w).1
  unfolding evict_all list_pods_on_node
  evict_all-dry w dry = ground (
    arith,
    pods-IsQuiet (op.api.list_pods (about "spec.nodeName=" op.node_name) w).0
        (op.api.list_pods (about "spec.nodeName=" op.node_name) w).1 dry,
  )
