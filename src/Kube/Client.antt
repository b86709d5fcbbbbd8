-- ===== src/Kube/Client.antt =====
-- src/rust/gdnd/gdnd-k8s/src/client.rs: `K8sClient`.
pub mod Effects
use gpu_dead_node_detector.Device.{Error, message, context}
use gpu_dead_node_detector.Kube.{Api, taints_of, Node, unschedulable_patch, taints_patch, Pod}
use gpu_dead_node_detector.Common.{
  String, Effect, with_error, concat, List, ◌>>=◌, ◌∷◌, pure, if◌then◌else◌, [], true, false, any,
  keep, str_eq, not, ◌++◌, some, none,
}

-- `.with_context(|| …)` on an answer of the API server.
abbrev pub with_context : {W A : Type 0} → String → Effect W String A → Effect W Error A
with_context text m = with_error (λ e. context text (message e)) m

abbrev pub about : String → String → String
about text name = concat (text ∷ name ∷ [])

module _ {W : Type 0} (api : Api W) where
  unfoldable pub get_node : String → Effect W Error Node
  get_node name = with_context (about "Failed to get node: " name) (api.get_node name)

  unfoldable pub health_check : Effect W Error (Unit {0})
  health_check = do nodes ← with_context "Failed to list nodes" (api.list_nodes 1); pure tt

  unfoldable pub cordon_node : String → Effect W Error (Unit {0})
  cordon_node name = do
    node ←
        with_context (about "Failed to cordon node: " name)
          (api.patch_node name (unschedulable_patch true))
    pure tt

  unfoldable pub uncordon_node : String → Effect W Error (Unit {0})
  uncordon_node name = do
    node ←
        with_context (about "Failed to uncordon node: " name)
          (api.patch_node name (unschedulable_patch false))
    pure tt

  unfoldable pub add_taint : String → String → String → String → Effect W Error (Unit {0})
  unfolding get_node
  add_taint name key value effect = do
    node ← get_node name
    if any (λ t. str_eq t.key key) (taints_of node) then pure tt else do
      patched ← with_context (about "Failed to add taint to node: " name) (
          api.patch_node name (
            taints_patch (
              taints_of node
              ++ record { key = key; value = some value; effect = effect; time_added = none }
                ∷ [])))
      pure tt

  unfoldable pub remove_taint : String → String → Effect W Error (Unit {0})
  unfolding get_node
  remove_taint name key = do
    node ← get_node name
    patched ←
        with_context (about "Failed to remove taint from node: " name)
          (api.patch_node name (taints_patch (keep (λ t. not (str_eq t.key key)) (taints_of node))))
    pure tt

  unfoldable pub list_pods_on_node : String → Effect W Error (List Pod)
  list_pods_on_node name =
      with_context (about "Failed to list pods on node: " name)
        (api.list_pods (about "spec.nodeName=" name))

  unfoldable pub evict_pod : String → String → Effect W Error (Unit {0})
  evict_pod namespace name =
      with_context (concat ("Failed to evict pod: " ∷ namespace ∷ "/" ∷ name ∷ []))
        (api.evict namespace name)
