-- ===== src/Main.antt =====
-- src/rust/gdnd/gdnd/src/main.rs: the conversions of the configuration, the assembly of the
-- scheduler, and a run. The connection to the cluster and the readings of the clock are arguments.
-- What runs beside the loop is in Serving, the command line in CommandLine, `main` in Program.
pub mod CommandLine
pub mod Serving
pub mod Program
pub mod Settings
pub mod DryRun
pub mod Endings
pub mod EndToEnd
pub mod Containment
pub mod PcieBranch
pub mod Persistent
pub mod Recovered
pub mod KernelLog
use Prim.Native.Nat.{◌%◌}
use gpu_dead_node_detector.Common.{
  none, some, ok, err, ◌>>=◌, ◌∷◌, with_error, raise, length, String, Option, if◌then◌else◌, Effect,
  List, Bool, Result, true, result_cases, is_none, ℕ, [], pure, concat,
}
use gpu_dead_node_detector.Config
use gpu_dead_node_detector.Detection.Passive
use gpu_dead_node_detector.Config.{
  Config, with_node_name_from_env, validate, debug_path, from_file, default_config,
}
use gpu_dead_node_detector.Device
use gpu_dead_node_detector.Device.{message, context, from_device, Error, DeviceInterface}
use gpu_dead_node_detector.Healing
use gpu_dead_node_detector.Kube.Operator
use gpu_dead_node_detector.Scheduler
use gpu_dead_node_detector.Health.{GpuHealthManager, with_recovery, new_manager, Clock}
use gpu_dead_node_detector.Healing.{SelfHealer, new_healer}
use gpu_dead_node_detector.Device.Select.{Drivers, create_device_interface}
use gpu_dead_node_detector.Kube.Operator.{NodeOperator, execute_actions}
use gpu_dead_node_detector.Detection.Pcie.{new_pcie_detector}
use gpu_dead_node_detector.Metrics.{set_gpu_count}
use gpu_dead_node_detector.Scheduler.{
  IsolationExecutor, with_healer, with_l3, Event, new_scheduler, State, DetectionScheduler,
}
use gpu_dead_node_detector.Kube.{Api}
use gpu_dead_node_detector.Detection.Passive.{L1PassiveDetector}
use gpu_dead_node_detector.Detection.Active.{L2ActiveDetector}
use gpu_dead_node_detector.Device.System.{System}
use gpu_dead_node_detector.Detection.{DetectionResult}

unfoldable pub to_core_device_type : Config.DeviceType → Device.DeviceType
to_core_device_type Config.DeviceType.auto = Device.DeviceType.auto
to_core_device_type Config.DeviceType.nvidia = Device.DeviceType.nvidia
to_core_device_type Config.DeviceType.ascend = Device.DeviceType.ascend

unfoldable pub to_k8s_isolation_config : Config.IsolationConfig → Operator.IsolationConfig
to_k8s_isolation_config c = record {
  cordon = c.cordon;
  evict_pods = c.evict_pods;
  taint_key = c.taint_key;
  taint_value = c.taint_value;
  taint_effect = c.taint_effect;
}

unfoldable pub to_core_healing_strategy : Config.HealingStrategy → Healing.HealingStrategy
to_core_healing_strategy Config.HealingStrategy.conservative = Healing.HealingStrategy.conservative
to_core_healing_strategy Config.HealingStrategy.moderate = Healing.HealingStrategy.moderate
to_core_healing_strategy Config.HealingStrategy.aggressive = Healing.HealingStrategy.aggressive

unfoldable pub health_manager : Config → GpuHealthManager
health_manager c =
    if c.recovery.enabled
    then with_recovery c.health.failure_threshold c.recovery.threshold c.health.fatal_xids
    else new_manager c.health.failure_threshold c.health.fatal_xids

-- The healer that is attached where healing is enabled.
unfoldable pub configured_healer : Config → SelfHealer
unfolding to_core_device_type to_core_healing_strategy
configured_healer c =
    new_healer
      (record {
        enabled = c.healing.enabled;
        strategy = to_core_healing_strategy c.healing.strategy;
        timeout = c.healing.timeout;
        dry_run = c.healing.dry_run;
      })
      (to_core_device_type c.device_type)

-- What the program finds around it.
pub record Surroundings (W : Type 0) : Type 0 where
  pub drivers : Drivers W
  -- `K8sClient::new`
  pub connect : Effect W Error (Api W)
  pub system : System W
  pub clock : W → Clock
  -- `serde_yaml::from_str`
  pub parse : String → Result Error Config

module _ {W : Type 0} where
  -- `NodeOperatorExecutor`
  unfoldable pub node_operator_executor : NodeOperator W → IsolationExecutor W
  node_operator_executor operator = record {
    execute = λ done. execute_actions operator done.actions;
  }

  unfoldable pub node_operator : Config → String → Api W → NodeOperator W
  unfolding to_k8s_isolation_config
  node_operator c name api = record {
    api = api;
    node_name = name;
    config = to_k8s_isolation_config c.isolation;
    dry_run = c.dry_run;
  }

  unfoldable pub passive_detector : Config → DeviceInterface W → L1PassiveDetector W
  passive_detector c device = record {
    device = device;
    temperature_threshold = c.health.temperature_threshold;
    fatal_xids = c.health.fatal_xids;
  }

  unfoldable pub active_detector : Config → DeviceInterface W → L2ActiveDetector W
  active_detector c device = record {
    device = device;
    gpu_check_path = c.gpu_check_path;
    timeout = c.health.active_check_timeout;
  }

  unfoldable pub assemble :
      Config → String → Surroundings W → DeviceInterface W → Api W → DetectionScheduler W
  unfolding node_operator_executor node_operator passive_detector active_detector configured_healer
      new_pcie_detector with_healer with_l3 new_scheduler
  assemble c name around device api =
      let basic =
        new_scheduler (passive_detector c device) (active_detector c device)
          (node_operator_executor (node_operator c name api)) c.l1_interval c.l2_interval
          around.system around.clock in
      let healing = if c.healing.enabled then with_healer basic (configured_healer c) else basic in
      if c.l3_enabled then with_l3 healing (new_pcie_detector device) c.l3_interval else healing

  -- The end of `run`: the loop, from a new manager and the count of the devices; the answer says
  -- whether the loop has ended, without which `run` does not return.
  unfoldable pub looped :
      Config → DetectionScheduler W → List Event → ℕ → Effect W Error (Bool × State W)
  unfolding health_manager set_gpu_count
  looped c s events count w =
      let (ended, st) =
        Scheduler.run s events
          (record { manager = health_manager c; updates = set_gpu_count count ∷ []; world = w }) in
      (ok (ended, st), st.world)

  -- From the connection to the cluster on.
  unfoldable pub connected :
      Config
      → Surroundings W
      → List Event
      → String
      → DeviceInterface W
      → ℕ
      → Effect W Error (Bool × State W)
  unfolding looped assemble
  connected c around events name device count = do
    api ← around.connect
    looped c (assemble c name around device api) events count

  -- From the list of the devices on.
  unfoldable pub listed :
      Config
      → Surroundings W
      → List Event
      → String
      → DeviceInterface W
      → Effect W Error (Bool × State W)
  unfolding connected
  listed c around events name device = do
    devices ← with_error from_device device.list_devices
    connected c around events name device (length devices)

  -- The device interface that the configuration asks for.
  unfoldable pub configured_device : Config → Surroundings W → Effect W Error (DeviceInterface W)
  unfolding to_core_device_type
  configured_device c around =
      with_error (λ e. context "Failed to create device interface" (from_device e))
        (create_device_interface around.drivers (to_core_device_type c.device_type))

  unfoldable pub run_on :
      Config → Surroundings W → List Event → String → Effect W Error (Bool × State W)
  unfolding configured_device listed
  run_on c around events name = do
    device ← configured_device c around
    listed c around events name device

  -- `run`, over the events of its loop. The answer is the state after these events, and `true` where
  -- they have ended the loop, so that `run` has returned; with `false` it still waits for the next.
  unfoldable pub run : Config → Surroundings W → List Event → Effect W Error (Bool × State W)
  unfolding run_on
  run c around events = elim c.node_name [
    | none ↦ raise (message "Node name must be specified via config, --node-name, or NODE_NAME env")
    | some name ↦ run_on c around events name
  ]
