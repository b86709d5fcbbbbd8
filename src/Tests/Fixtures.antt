-- ===== src/Tests/Fixtures.antt =====
-- Two devices, what their driver answers, a system that logs its commands, and a cluster.
use gpu_dead_node_detector.Device.{
  DeviceId, DeviceMetrics, XidError, CheckResult, DeviceInterface, no_ecc_errors, DeviceError,
  nvidia, check_error, query_error,
}
use gpu_dead_node_detector.Health.{Clock}
use gpu_dead_node_detector.Common.{
  List, ℕ, String, Option, none, some, false, Effect, pure, true, ok, ◌∷◌, [], ◌++◌, if◌then◌else◌,
  refl, raise, str_eq, suc, zero, arith, eq_refl, eq_iff, Bool, ◌≢◌, ◌≡◌,
}
use gpu_dead_node_detector.Device.System.{Output, System}
use gpu_dead_node_detector.Detection.Passive.{L1PassiveDetector}
use gpu_dead_node_detector.Detection.Active.{L2ActiveDetector}
use gpu_dead_node_detector.Detection.Pcie.{L3PcieDetector, default_pcie_config}
use gpu_dead_node_detector.Healing.{SelfHealer, default_healing_config, aggressive}
use gpu_dead_node_detector.Kube.{
  Patch, Api, Server, Node, NodeSpec, unschedulable_patch, taints_patch, Taint, is_cordoned,
  taints_of,
}
use gpu_dead_node_detector.Kube.Operator.Success.{IsUp}
use gpu_dead_node_detector.Kube.Operator.{NodeOperator, default_isolation}

abbrev pub gpu0 : DeviceId
gpu0 = record { index = 0; uuid = some "GPU-a"; name = "A100" }

abbrev pub gpu1 : DeviceId
gpu1 = record { index = 1; uuid = some "GPU-b"; name = "A100" }

abbrev pub clock : Clock
clock = record { created = 10; checked = 11; changed = 12 }

abbrev pub hot : DeviceMetrics
hot = record {
  temperature = 95;
  gpu_utilization = 50;
  memory_utilization = 40;
  power_usage = 250;
  power_limit = 400;
  memory_total = 80;
  memory_used = 20;
  memory_free = 60;
  pcie_tx = none;
  pcie_rx = none;
  ecc_errors = no_ecc_errors;
  timestamp = 7;
}

abbrev pub fallen_off : XidError
fallen_off = record {
  code = 79;
  message = "GPU has fallen off the bus";
  timestamp = 7;
  device_index = 0;
}

abbrev pub broken : CheckResult
broken = record { passed = false; duration = 3; error = some "matrix differs"; exit_code = some 1 }

-- The world is the list of the commands that were run.
abbrev pub Log : Type 0
Log = List String

abbrev checked : ℕ → Effect Log DeviceError CheckResult
checked zero = pure broken
checked (suc n) = raise (check_error "no gpu-check")

abbrev pub driver : DeviceInterface Log
driver = record {
  list_devices = pure (gpu0 ∷ gpu1 ∷ []);
  get_metrics = λ d. pure hot;
  get_xid_errors = λ d. pure (fallen_off ∷ []);
  check_zombie_processes = λ d. raise (query_error "no nvidia-smi");
  run_active_check = λ d limit. checked d.index;
  device_type = nvidia;
  supports_pcie_test = true;
  run_pcie_test = λ d. pure broken;
}

abbrev pub output : Output
output = record { success = true; code = some 0; stdout = "12\n34\n"; stderr = "" }

abbrev pub system : System Log
system = record {
  run = λ name args w. (ok output, w ++ name ∷ []);
  run_within = λ limit name args w. (some (ok output), w ++ name ∷ []);
  read_to_string = λ path. pure "";
  path_exists = λ path w. (true, w);
  elapsed = λ w. 5;
  now = λ w. 6;
}

abbrev pub passive : L1PassiveDetector Log
passive = record { device = driver; temperature_threshold = 85; fatal_xids = 79 ∷ [] }

abbrev pub active : L2ActiveDetector Log
active = record { device = driver; gpu_check_path = "gpu-check"; timeout = 300000000000 }

abbrev pub pcie : L3PcieDetector Log
pcie = record { device = driver; config = default_pcie_config }

abbrev pub healer : SelfHealer
healer = record {
  config = record default_healing_config { enabled = true; strategy = aggressive };
  device_type = nvidia;
}

-- The cluster keeps a node for each name.
abbrev pub Nodes : Type 0
Nodes = String → Node

abbrev spec_of : Option NodeSpec → NodeSpec
spec_of none = record { unschedulable = none; taints = none }
spec_of (some s) = s

abbrev patched_spec : Patch → NodeSpec → NodeSpec
patched_spec (unschedulable_patch b) s = record s { unschedulable = some b }
patched_spec (taints_patch ts) s = record s { taints = some ts }

abbrev patched : Patch → Node → Node
patched p n = record n { spec = some (patched_spec p (spec_of n.spec)) }

abbrev pub cluster : Api Nodes
cluster = record {
  get_node = λ n w. (ok (w n), w);
  patch_node = λ n p w. (ok (patched p (w n)), λ m. if str_eq n m then patched p (w n) else w m);
  list_nodes = λ n. pure [];
  list_pods = λ field. pure [];
  evict = λ namespace name. raise "Forbidden";
}

-- The laws of the server, for this cluster.
pub cordon_lem :
    (n : String) (b : Bool) (w : Nodes)
    → let after = (cluster.patch_node n (unschedulable_patch b) w).1 n in
      (is_cordoned after ≡ b) × (taints_of after ≡ taints_of (w n))
cordon_lem n b w = ground (arith, eq_refl n)

pub taints_lem :
    (n : String) (ts : List Taint) (w : Nodes)
    → let after = (cluster.patch_node n (taints_patch ts) w).1 n in
      (is_cordoned after ≡ is_cordoned (w n)) × (taints_of after ≡ ts)
taints_lem n ts w = ground (arith, eq_refl n)

pub frame_lem :
    (n m : String) (p : Patch) (w : Nodes) → n ≢ m → (cluster.patch_node n p w).1 m ≡ w m
frame_lem n m p w ne = ground (arith, eq_iff n m)

abbrev pub server : Server cluster
server = record {
  stored = λ n w. w n;
  get_reads = λ n w. refl;
  get_keeps = λ n m w. refl;
  cordon_sets = λ n b w done. cordon_lem n b w;
  taints_set = λ n ts w done. taints_lem n ts w;
  patch_frames = frame_lem;
}

abbrev pub cluster-IsUp : IsUp cluster
cluster-IsUp = record { gets = λ n w. refl; patches = λ n p w. refl; lists = λ field w. refl }

abbrev pub fresh : Nodes
fresh name = record { name = name; spec = none }

abbrev pub operator : NodeOperator Nodes
operator = record {
  api = cluster;
  node_name = "node-a";
  config = default_isolation;
  dry_run = false;
}
