-- ===== src/Tests/Kube.antt =====
-- The node operator at work on a fresh node.
use gpu_dead_node_detector.Kube.Client
use gpu_dead_node_detector.Kube.Operator.Success.{execute_actions_ok}
use gpu_dead_node_detector.Health.{
  cordon, evict_pods, remove_taint, isolation_actions, recovery_actions,
}
use gpu_dead_node_detector.Tests.Fixtures.{cluster-IsUp, gpu0, operator, server, fresh}
use gpu_dead_node_detector.Kube.Operator.{
  execute_actions, IsolationConfig, NodeOperator, should_skip_pod, default_isolation, evict_all,
}
use gpu_dead_node_detector.Kube.{Pod, Api, is_cordoned, taints_of}
use gpu_dead_node_detector.Common.{
  true, some, List, [], none, String, ◌≡◌, ◌∷◌, raise, false, pure, ok, err, refl, ◌++◌,
}
use gpu_dead_node_detector.Kube.Operator.Isolation.{
  failed_taint, recovery_undoes_isolation, isolation_applied,
}
use gpu_dead_node_detector.Kube.Operator.Eviction.{evict_all_lem}

isolation_applied_example :
    let after =
      server.stored "node-a" (execute_actions operator (isolation_actions gpu0 []) fresh).1 in
    (is_cordoned after ≡ true) × (taints_of after ≡ failed_taint ∷ [])
unfolding Client.cordon_node Client.add_taint
isolation_applied_example =
    isolation_applied operator server gpu0 [] fresh refl
      (unfold execute_actions isolation_actions in refl)

recovery_undoes_isolation_example :
    let isolated = (execute_actions operator (isolation_actions gpu0 []) fresh).1 in
    let after =
      server.stored "node-a" (execute_actions operator (recovery_actions gpu0) isolated).1 in
    (is_cordoned after ≡ false) × (taints_of after ≡ [])
unfolding Client.cordon_node Client.add_taint Client.remove_taint Client.uncordon_node
recovery_undoes_isolation_example =
    recovery_undoes_isolation operator server gpu0 [] fresh refl refl
      (unfold execute_actions isolation_actions in refl)
      (unfold execute_actions isolation_actions recovery_actions in refl)

abbrev custom : IsolationConfig
custom = record default_isolation {
  evict_pods = true;
  taint_key = "example.com/gpu";
  taint_effect = "NoExecute";
}

execute_actions_ok_example :
    (execute_actions operator (cordon ∷ evict_pods ∷ remove_taint "a" ∷ []) fresh).0 ≡ ok tt
execute_actions_ok_example =
    execute_actions_ok operator cluster-IsUp (cordon ∷ evict_pods ∷ remove_taint "a" ∷ []) fresh

-- A cluster whose world is the list of the pods that an eviction was requested for.
abbrev training : Pod
training = record {
  namespace = some "ml";
  name = some "training";
  annotations = none;
  owner_kinds = some ("Job" ∷ []);
}

abbrev exporter : Pod
exporter = record {
  namespace = some "monitoring";
  name = some "exporter";
  annotations = none;
  owner_kinds = some ("DaemonSet" ∷ []);
}

abbrev pods : Api (List String)
pods = record {
  get_node = λ n. raise "Not found";
  patch_node = λ n p. raise "Not found";
  list_nodes = λ n. pure [];
  list_pods = λ field. pure (exporter ∷ training ∷ []);
  evict = λ namespace name w. (err "Too many requests", w ++ name ∷ []);
}

abbrev evicting : NodeOperator (List String)
evicting = record { api = pods; node_name = "node-a"; config = custom; dry_run = false }

evict_all_lem_example : evict_all evicting [] ≡ (ok tt, "training" ∷ [])
unfolding should_skip_pod
evict_all_lem_example = evict_all_lem evicting [] [] refl refl
