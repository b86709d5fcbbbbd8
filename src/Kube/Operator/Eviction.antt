-- ===== src/Kube/Operator/Eviction.antt =====
-- Which pods an eviction touches.
use gpu_dead_node_detector.Kube.Operator.{NodeOperator, evict_all, evict_one, should_skip_pod}
use gpu_dead_node_detector.Kube.{Api, Pod}
use gpu_dead_node_detector.Common.{
  for_each, List, ◌≡◌, ◌∷◌, get_or, false, ok, [], keep, not, arith, refl,
}
use gpu_dead_node_detector.Kube.Client.{list_pods_on_node, evict_pod, about}

-- The requests for the given pods, one after the other, whatever the answers.
abbrev pub after_evictions : {W : Type 0} → Api W → List Pod → W → W
after_evictions api [] w = w
after_evictions api (p ∷ pods) w =
    after_evictions api pods
      (api.evict (get_or p.namespace "default") (get_or p.name "unknown") w).1

module _ {W : Type 0} (op : NodeOperator W) where
  each_eviction :
      (pods : List Pod) (w : W)
      → op.dry_run ≡ false
      → for_each (evict_one op) pods w
        ≡ (ok tt, after_evictions op.api (keep (λ p. not (should_skip_pod p)) pods) w)
  unfolding for_each evict_one evict_pod
  each_eviction [] w wet = refl
  each_eviction (p ∷ pods) w wet = ground (
    arith,
    each_eviction pods w wet,
    each_eviction pods (op.api.evict (get_or p.namespace "default") (get_or p.name "unknown") w).1
        wet,
  )

  -- Outside a dry run, once the pods are listed an eviction succeeds: it requests the eviction of
  -- every listed pod that is not skipped, in order, a refusal of one not keeping it from the next,
  -- and of no other pod.
  pub evict_all_lem :
      (w v : W) {pods : List Pod}
      → op.dry_run ≡ false
      → op.api.list_pods (about "spec.nodeName=" op.node_name) w ≡ (ok pods, v)
      → evict_all op w
        ≡ (ok tt, after_evictions op.api (keep (λ p. not (should_skip_pod p)) pods) v)
  unfolding evict_all list_pods_on_node
  evict_all_lem w v {pods} wet listed = rw listed (each_eviction pods v wet)
