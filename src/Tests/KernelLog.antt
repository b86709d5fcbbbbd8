-- ===== src/Tests/KernelLog.antt =====
-- A node with two NVIDIA devices whose kernel log names one of them.
use gpu_dead_node_detector.Tests.Fixtures.{cluster-IsUp, gpu0, gpu1, Nodes, cluster, fresh}
use gpu_dead_node_detector.Tests.Main.{on_node}
use gpu_dead_node_detector.Common.{
  pure, raise, ◌==◌, if◌then◌else◌, none, ok, ◌∷◌, [], inl, refl, arith, eq_iff, ◌≡◌, collect,
  lookup, parse_number,
}
use gpu_dead_node_detector.Config.{default_config}
use gpu_dead_node_detector.Health.{isolated, get, device_key, new_manager}
use gpu_dead_node_detector.Health.Diagram.{state_of}
use gpu_dead_node_detector.Main.{assemble, health_manager}
use gpu_dead_node_detector.Main.KernelLog.{fatal_line_isolates}
use gpu_dead_node_detector.Scheduler.{run_l1_detection, State}
use gpu_dead_node_detector.Device.Nvml.{Nvml}
use gpu_dead_node_detector.Device.Nvidia.{NvidiaDevice, nvidia_interface, list_devices, device_at}
use gpu_dead_node_detector.Device.System.{Match, Regex}

abbrev nvml : Nvml Nodes
nvml = record {
  device_count = pure 2;
  device_by_index = λ i. pure i;
  name = λ d. pure "A100";
  uuid = λ d. pure (if d == 0 then "GPU-a" else "GPU-b");
  temperature = λ d. pure 40;
  utilization_rates = λ d. pure (10, 20);
  power_usage = λ d. pure 250000;
  power_management_limit = λ d. pure 400000;
  memory_info = λ d. raise "not supported";
  pcie_throughput = λ d counter. raise "not supported";
}

abbrev driver : NvidiaDevice Nodes
driver = record { nvml = nvml; gpu_check_path = "gpu-check" }

-- The one match in the log, with the address of the first device.
abbrev line : Match
line n = if n == 1 then "0000:01:00.0" else "79"

abbrev engine : Regex
engine = record { captures_iter = λ pattern text. line ∷ []; captures = λ pattern text. none }

abbrev start : State Nodes
start = record { manager = health_manager default_config; updates = []; world = fresh }

fatal_line_isolates_example :
    let (answer, final) =
      run_l1_detection
        (assemble default_config "node-a" on_node
          (nvidia_interface on_node.system engine driver)
          cluster)
        start in
    (answer ≡ ok tt) × (state_of final.manager gpu1 ≡ isolated)
unfolding nvidia_interface list_devices device_at collect state_of get lookup device_key
    health_manager new_manager parse_number
fatal_line_isolates_example =
    fatal_line_isolates default_config "node-a" on_node engine driver cluster cluster-IsUp
      (gpu0 ∷ []) [] gpu1 start refl (ground (arith, eq_iff "GPU-a" "GPU-b"), tt) tt refl refl refl
      (inl refl)
