-- ===== src/Kube/Operator.antt =====
-- src/rust/gdnd/gdnd-k8s/src/node_ops.rs: `NodeOperator`. Log lines are left out, so `send_alert`
-- does nothing.
pub mod Isolation
pub mod Success
pub mod Eviction
pub mod DryRun
use gpu_dead_node_detector.Health.{
  IsolationAction, cordon, uncordon, evict_pods, taint, remove_taint, alert,
}
use gpu_dead_node_detector.Device.{Error}
use gpu_dead_node_detector.Kube.{Api, Pod}
use gpu_dead_node_detector.Kube.Client
use gpu_dead_node_detector.Common.{
  Bool, true, String, Option, Effect, for_each, false, Dict, List, if◌then◌else◌, pure, ◌>>=◌,
  attempt, some, has_key, any, str_eq, starts_with, get_or, ◌||◌, none,
}

pub record IsolationConfig : Type 0 where
  pub cordon : Bool
  pub evict_pods : Bool
  pub taint_key : String
  pub taint_value : String
  pub taint_effect : String

abbrev pub default_isolation : IsolationConfig
default_isolation = record {
  cordon = true;
  evict_pods = false;
  taint_key = "nvidia.com/gpu-health";
  taint_value = "failed";
  taint_effect = "NoSchedule";
}

pub record NodeOperator (W : Type 0) : Type 0 where
  pub api : Api W
  pub node_name : String
  pub config : IsolationConfig
  pub dry_run : Bool

abbrev has_mirror : Option (Dict String) → Bool
has_mirror none = false
has_mirror (some a) = has_key "kubernetes.io/config.mirror" a

abbrev has_daemon_owner : Option (List String) → Bool
has_daemon_owner none = false
has_daemon_owner (some kinds) = any (λ k. str_eq k "DaemonSet") kinds

abbrev is_kube_system : Option String → Bool
is_kube_system none = false
is_kube_system (some ns) = str_eq ns "kube-system"

abbrev is_critical_name : Option String → Bool
is_critical_name none = false
is_critical_name (some name) =
    starts_with name "kube-proxy"
    || starts_with name "kube-flannel"
    || starts_with name "calico-node"

unfoldable pub should_skip_pod : Pod → Bool
should_skip_pod p =
    if has_mirror p.annotations
    then true
    else if has_daemon_owner p.owner_kinds
    then true
    else if is_kube_system p.namespace
    then is_critical_name p.name
    else false

module _ {W : Type 0} (op : NodeOperator W) where
  -- `cordon`, and so on: in a dry run nothing is requested.
  unfoldable pub cordon_self : Effect W Error (Unit {0})
  cordon_self = if op.dry_run then pure tt else Client.cordon_node op.api op.node_name

  unfoldable pub uncordon_self : Effect W Error (Unit {0})
  uncordon_self = if op.dry_run then pure tt else Client.uncordon_node op.api op.node_name

  unfoldable pub add_taint : String → String → String → Effect W Error (Unit {0})
  add_taint key value effect =
      if op.dry_run then pure tt else Client.add_taint op.api op.node_name key value effect

  unfoldable pub remove_taint_self : String → Effect W Error (Unit {0})
  remove_taint_self key =
      if op.dry_run then pure tt else Client.remove_taint op.api op.node_name key

  -- One pod of the loop of `evict_pods`; a refused eviction is logged and passed over.
  unfoldable pub evict_one : Pod → Effect W Error (Unit {0})
  evict_one p =
      if should_skip_pod p
      then pure tt
      else if op.dry_run
      then pure tt
      else attempt
          (Client.evict_pod op.api (get_or p.namespace "default") (get_or p.name "unknown"))
          (λ done. pure tt) (λ e. pure tt)

  unfoldable pub evict_all : Effect W Error (Unit {0})
  evict_all = do pods ← Client.list_pods_on_node op.api op.node_name; for_each evict_one pods

  unfoldable pub send_alert : String → String → Effect W Error (Unit {0})
  send_alert message severity = pure tt

  unfoldable pub execute_action : IsolationAction → Effect W Error (Unit {0})
  unfolding cordon_self uncordon_self add_taint remove_taint_self send_alert
  execute_action cordon = if op.config.cordon then cordon_self else pure tt
  execute_action (taint key value effect) = add_taint key value effect
  execute_action evict_pods = if op.config.evict_pods then evict_all else pure tt
  execute_action (alert message severity) = send_alert message severity
  execute_action uncordon = uncordon_self
  execute_action (remove_taint key) = remove_taint_self key

  unfoldable pub execute_actions : List IsolationAction → Effect W Error (Unit {0})
  unfolding execute_action for_each
  execute_actions actions = for_each execute_action actions

  unfoldable pub isolate : Effect W Error (Unit {0})
  unfolding cordon_self add_taint
  isolate = do
    cordoned ← (if op.config.cordon then cordon_self else pure tt)
    tainted ← add_taint op.config.taint_key op.config.taint_value op.config.taint_effect
    if op.config.evict_pods then evict_all else pure tt

  unfoldable pub unisolate : Effect W Error (Unit {0})
  unfolding uncordon_self remove_taint_self
  unisolate = do untainted ← remove_taint_self op.config.taint_key; uncordon_self
