-- ===== src/Tests/Main.antt =====
-- The assembled program on a node without drivers, so on the mock device.
use gpu_dead_node_detector.Main.CommandLine.{Cli}
use gpu_dead_node_detector.Main.Program.{
  accepted, load_config, main, overridden, run_chosen, run_single, started_with,
}
use gpu_dead_node_detector.Tests.Fixtures.{
  cluster-IsUp, gpu0, system, clock, Log, Nodes, output, cluster, fresh, server,
}
use gpu_dead_node_detector.Main
use gpu_dead_node_detector.Health
use gpu_dead_node_detector.Kube.Client
use gpu_dead_node_detector.Scheduler.{
  process_result, isolate, State, judge, complete, attempt_healing, new_scheduler, with_healer,
  with_l3, l1_tick, shutdown_changed, l2_tick,
}
use gpu_dead_node_detector.Health.{
  isolated, fatal, isolation_actions, new_manager, get, device_key, step, get_or_create, new_health,
  event_of, dispatch, state_eq, change, transition, fatal_error,
}
use gpu_dead_node_detector.Kube.{Api, is_cordoned, taints_of}
use gpu_dead_node_detector.Device.Select.{Drivers, create_device_interface}
use gpu_dead_node_detector.Main.{
  Surroundings, assemble, to_core_device_type, health_manager, node_operator_executor,
  node_operator, to_k8s_isolation_config, configured_device,
}
use gpu_dead_node_detector.Config.{
  Config, default_config, with_node_name_from_env, validate, from_file, from_yaml,
}
use gpu_dead_node_detector.Device.{DeviceInterface, nvml_init_error, other}
use gpu_dead_node_detector.Common.{
  collect, raise, pure, none, some, true, ◌∷◌, [], ◌≡◌, ok, refl, arith, lookup, insert, inl, false,
}
use gpu_dead_node_detector.Device.Mock.{mock_interface, new_mock, with_device_count, mock_id}
use gpu_dead_node_detector.Main.Endings.{run_returns}
use gpu_dead_node_detector.Detection.Passive.{detect_all, detect}
use gpu_dead_node_detector.Main.Settings.{main_lem, Chosen}
use gpu_dead_node_detector.Health.Invariant.{IsValid}
use gpu_dead_node_detector.Main.DryRun.{dry_run_harmless}
use gpu_dead_node_detector.Device.System.{System}
use gpu_dead_node_detector.Detection.{
  DetectionResult, fail, l1_passive, fatal_xid, has_fatal_finding,
}
use gpu_dead_node_detector.Kube.Operator.{execute_actions}
use gpu_dead_node_detector.Health.Diagram.{state_of}
use gpu_dead_node_detector.Kube.Operator.Isolation.{failed_taint}
use gpu_dead_node_detector.Main.EndToEnd.{fatal_result_isolates_node}

abbrev unreachable : Api Log
unreachable = record {
  get_node = λ n. raise "refused";
  patch_node = λ n p. raise "refused";
  list_nodes = λ n. raise "refused";
  list_pods = λ field. raise "refused";
  evict = λ namespace name. raise "refused";
}

abbrev no_drivers : Drivers Log
no_drivers = record {
  new_nvidia = raise (nvml_init_error "libnvidia-ml.so not found");
  new_ascend = raise (other "npu-smi not found");
  now = λ w. 6;
}

abbrev around : Surroundings Log
around = record {
  drivers = no_drivers;
  connect = pure unreachable;
  system = system;
  clock = λ w. clock;
  parse = λ text. ok (record default_config { node_name = some "node-of-the-file" });
}

abbrev config : Config
config = record default_config { node_name = some "node-a"; dry_run = true }

abbrev mock : DeviceInterface Log
mock = mock_interface (λ w. 6) new_mock

run_returns_example :
    let events = l1_tick ∷ shutdown_changed true ∷ l2_tick ∷ [] in
    (st : State Log) × (Main.run config around events [] ≡ (ok (true, st), st.world))
    × (Main.run config around (l1_tick ∷ shutdown_changed true ∷ []) []
        ≡ Main.run config around events [])
    × IsValid st.manager
unfolding create_device_interface mock_interface to_core_device_type
run_returns_example =
    run_returns config around (l1_tick ∷ shutdown_changed true ∷ l2_tick ∷ []) [] (omega arith)
      (omega arith) refl refl refl refl

-- No flag, but the environment variable, which beats the file.
abbrev cli : Cli
cli = record {
  config = "/etc/gdnd/config.yaml";
  node_name = some "node-a";
  log_level = "info";
  log_json = false;
  dry_run = true;
  once = true;
  debug = false;
}

main_lem_example :
    (loaded : Config) × (c : Config) × (v : Log) × (load_config cli around [] ≡ (ok loaded, v))
    × Chosen c cli none (some "node-a") loaded
    × (run_chosen cli around (l1_tick ∷ []) c v ≡ (ok none, []))
unfolding main load_config started_with accepted overridden with_node_name_from_env validate
    run_chosen run_single configured_device to_core_device_type create_device_interface from_file
    from_yaml detect_all mock_interface collect new_mock with_device_count detect mock_id
main_lem_example = main_lem cli none (some "node-a") around (l1_tick ∷ []) [] [] none refl refl

dry_run_harmless_example :
    (assemble config "node-a" around mock unreachable).isolation_executor.execute
      (transition (health_manager config) clock gpu0 (fatal_error [])).1
      []
    ≡ (ok tt, [])
dry_run_harmless_example =
    dry_run_harmless config "node-a" around mock unreachable (health_manager config) clock gpu0
      (fatal_error []) [] refl

-- A node of the cluster whose first device falls off the bus.
abbrev node_system : System Nodes
node_system = record {
  run = λ program args. pure output;
  run_within = λ limit program args w. (some (ok output), w);
  read_to_string = λ path. pure "";
  path_exists = λ path w. (true, w);
  elapsed = λ w. 5;
  now = λ w. 6;
}

abbrev pub on_node : Surroundings Nodes
on_node = record {
  drivers = record {
    new_nvidia = raise (nvml_init_error "libnvidia-ml.so not found");
    new_ascend = raise (other "npu-smi not found");
    now = λ w. 6;
  };
  connect = pure cluster;
  system = node_system;
  clock = λ w. clock;
  parse = λ text. ok default_config;
}

abbrev node_mock : DeviceInterface Nodes
node_mock = mock_interface (λ w. 6) new_mock

abbrev fell_off : DetectionResult
fell_off = fail gpu0 l1_passive (fatal_xid 79 "GPU has fallen off the bus" ∷ [])

abbrev node_state : State Nodes
node_state = record { manager = health_manager default_config; updates = []; world = fresh }

abbrev handled : State Nodes
handled =
    (process_result (assemble default_config "node-a" on_node node_mock cluster) fell_off
      node_state).1

fatal_result_isolates_node_example :
    ((process_result
        (assemble default_config "node-a" on_node node_mock cluster)
        fell_off
        node_state).0
      ≡ ok tt)
    × (state_of handled.manager gpu0 ≡ isolated)
    × (is_cordoned (handled.world "node-a") ≡ true)
    × (taints_of (handled.world "node-a") ≡ failed_taint ∷ [])
unfolding process_result judge isolate complete attempt_healing assemble node_operator_executor
    node_operator to_k8s_isolation_config execute_actions isolation_actions Client.cordon_node
    Client.add_taint health_manager new_manager state_of get lookup insert device_key
    Health.process_result transition step get_or_create new_health event_of has_fatal_finding fail
    fatal_xid new_scheduler with_healer with_l3 dispatch fatal state_eq change
fatal_result_isolates_node_example =
    fatal_result_isolates_node default_config "node-a" on_node node_mock cluster server fell_off
      node_state refl cluster-IsUp refl refl (inl refl)
