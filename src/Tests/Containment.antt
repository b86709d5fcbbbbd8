-- ===== src/Tests/Containment.antt =====
-- The assembled program on a mock device that shows XID 79, and its node.
use gpu_dead_node_detector.Health.{
  transition, with_recovery, step, dispatch, fatal, get_or_create, new_health, get, device_key,
  fatal_error, isolation_completed, GpuHealthManager, healthy,
}
use gpu_dead_node_detector.Common.{lookup, insert, eq_iff, some, arith, ok, true}
use gpu_dead_node_detector.Health.Status.{status_of}
use gpu_dead_node_detector.Scheduler.Reporting.{IsListed}
use gpu_dead_node_detector.Main.Recovered.{recovered-IsClosed}
use gpu_dead_node_detector.Main.{passive_detector}
use gpu_dead_node_detector.Main.Persistent.{persistent_failure_closes_node}
use gpu_dead_node_detector.Tests.Failing.{heated, IsListed-heated}
use gpu_dead_node_detector.Common.{
  ◌∷◌, [], true, refl, ◌≡◌, arith, lookup, is_ok, ok, false, ap, sym, ok-injective,
}
use gpu_dead_node_detector.Config.{Config, default_config}
use gpu_dead_node_detector.Device.{DeviceInterface, DeviceId, CheckResult}
use gpu_dead_node_detector.Device.Mock.{mock_interface, new_mock, add_xid_error}
use gpu_dead_node_detector.Detection.Keeps.{DriverKeeps}
use gpu_dead_node_detector.Main.{assemble, health_manager}
use gpu_dead_node_detector.Main.Endings.{started}
use gpu_dead_node_detector.Main.Containment.{IsClosed, IsContained, run-IsContained}
use gpu_dead_node_detector.Scheduler.{run, State, l1_tick, l2_tick, l3_tick, shutdown_changed}
use gpu_dead_node_detector.Tests.Fixtures.{
  cluster, cluster-IsUp, server, fresh, Nodes, gpu1, gpu0, clock,
}
use gpu_dead_node_detector.Tests.Main.{on_node}
use gpu_dead_node_detector.Health.Diagram.{state_of}
use gpu_dead_node_detector.Health.{get, new_manager, isolated}
use gpu_dead_node_detector.Kube.Operator.Isolation.{failed_taint}
use gpu_dead_node_detector.Health.Invariant.{transition-IsValid, with_recovery-IsValid}

abbrev fallen : DeviceInterface Nodes
fallen = mock_interface (λ w. 6) (add_xid_error 6 new_mock 79 0)

world-get_metrics : (d : DeviceId) (w : Nodes) → (fallen.get_metrics d w).1 ≡ w
unfolding mock_interface
world-get_metrics d w = ground arith

fallen-DriverKeeps : DriverKeeps (λ w. IsClosed (server.stored "node-a" w)) fallen
unfolding mock_interface
fallen-DriverKeeps = record {
  lists = λ w p. p;
  measures = λ d w p. rw (world-get_metrics d w) p;
  reads_xids = λ d w p. p;
  finds_zombies = λ d w p. p;
  checks = λ d limit w p. p;
  tests_pcie = λ d w p. p;
}

abbrev starting : State Nodes
starting = started default_config [] fresh

starting-IsContained : IsContained server "node-a" starting.manager starting.world
unfolding state_of get health_manager new_manager lookup
starting-IsContained d is = ground (arith, is)

run-IsContained_example :
    let final =
      (run
        (assemble default_config "node-a" on_node fallen cluster)
        (l1_tick ∷ l2_tick ∷ l1_tick ∷ shutdown_changed true ∷ [])
        starting).1 in
    IsContained server "node-a" final.manager final.world
run-IsContained_example =
    run-IsContained default_config "node-a" on_node fallen cluster server refl refl cluster-IsUp
      fallen-DriverKeeps (l1_tick ∷ l2_tick ∷ l1_tick ∷ shutdown_changed true ∷ []) starting
      starting-IsContained

-- The default configuration with L3 switched on.
abbrev l3_config : Config
l3_config = record default_config { l3_enabled = true }

-- A node whose devices are too hot, and whose first device fails its tests.
abbrev hot_node : DeviceInterface Nodes
hot_node = heated 95

hot-DriverKeeps : DriverKeeps (λ w. IsClosed (server.stored "node-a" w)) hot_node
hot-DriverKeeps = record {
  lists = λ w p. p;
  measures = λ d w p. p;
  reads_xids = λ d w p. p;
  finds_zombies = λ d w p. p;
  checks = λ d limit w p. p;
  tests_pcie = λ d w p. p;
}

runs-hot : (x : DeviceId) (w : Nodes) → is_ok (hot_node.run_active_check x 5000000000 w).0 ≡ true
runs-hot x w = refl

fails-hot :
    (w : Nodes) (r : CheckResult)
    → (hot_node.run_active_check gpu0 5000000000 w).0 ≡ ok r
    → r.passed ≡ false
fails-hot w r e = ap (λ c. c.passed) (sym (ok-injective e))

fails-test :
    (w : Nodes) (r : CheckResult) → (hot_node.run_pcie_test gpu0 w).0 ≡ ok r → r.passed ≡ false
fails-test w r e = ap (λ c. c.passed) (sym (ok-injective e))

persistent_failure_closes_node_example :
    let (loop_ended, final) =
      run
        (assemble l3_config "node-a" on_node hot_node cluster)
        (l1_tick ∷ l3_tick ∷ l2_tick ∷ l1_tick ∷ [])
        (started l3_config (gpu1 ∷ gpu0 ∷ []) fresh) in
    (state_of final.manager gpu0 ≡ isolated) × IsClosed (final.world "node-a")
unfolding passive_detector
persistent_failure_closes_node_example =
    persistent_failure_closes_node l3_config "node-a" on_node hot_node cluster server refl refl
      (omega arith) (omega arith) cluster-IsUp hot-DriverKeeps gpu0 (IsListed-heated 95) (λ w. refl)
      (λ w. refl) runs-hot fails-hot (λ on. ((λ x w. refl), fails-test))
      (l1_tick ∷ l3_tick ∷ l2_tick ∷ l1_tick ∷ []) (gpu1 ∷ gpu0 ∷ []) fresh (omega arith)
      (omega arith)

-- The other device of that node, too hot no more and isolated, where two passes restore a device.
abbrev cool_node : DeviceInterface Nodes
cool_node = heated 40

cool-DriverKeeps : DriverKeeps (λ w. IsClosed (server.stored "node-a" w)) cool_node
cool-DriverKeeps = record {
  lists = λ w p. p;
  measures = λ d w p. p;
  reads_xids = λ d w p. p;
  finds_zombies = λ d w p. p;
  checks = λ d limit w p. p;
  tests_pcie = λ d w p. p;
}

IsListed-cool : IsListed cool_node.list_devices gpu1
unfolding device_key
IsListed-cool = record {
  before = [];
  after = gpu0 ∷ [];
  listed = λ w. refl;
  none_before = tt;
  none_after = (ground (arith, eq_iff "GPU-a" "GPU-b"), tt);
}

good-cool :
    (w : Nodes) (r : CheckResult)
    → (cool_node.run_active_check gpu1 5000000000 w).0 ≡ ok r
    → r.passed ≡ true
good-cool w r e = ap (λ c. c.passed) (sym (ok-injective e))

good-test :
    (w : Nodes) (r : CheckResult) → (cool_node.run_pcie_test gpu1 w).0 ≡ ok r → r.passed ≡ true
good-test w r e = ap (λ c. c.passed) (sym (ok-injective e))

abbrev condemned_manager : GpuHealthManager
condemned_manager = (transition (with_recovery 3 2 (79 ∷ [])) clock gpu1 (fatal_error [])).0

abbrev closed_nodes : Nodes
closed_nodes n = record {
  name = n;
  spec = some (record { unschedulable = some true; taints = some (failed_taint ∷ []) });
}

abbrev cut_off_state : State Nodes
cut_off_state = record {
  manager = (transition condemned_manager clock gpu1 isolation_completed).0;
  updates = [];
  world = closed_nodes;
}

recovered-IsClosed_example :
    let (loop_ended, final) =
      run
        (assemble l3_config "node-a" on_node cool_node cluster)
        (l1_tick ∷ l3_tick ∷ l2_tick ∷ [])
        cut_off_state in
    (state_of final.manager gpu1 ≡ healthy) × IsClosed (final.world "node-a")
unfolding passive_detector with_recovery transition step dispatch fatal get_or_create new_health
    lookup insert get device_key status_of
recovered-IsClosed_example =
    recovered-IsClosed l3_config "node-a" on_node cool_node cluster server refl refl cluster-IsUp
      cool-DriverKeeps gpu1 IsListed-cool (λ w. refl) (λ x w. refl) good-cool
      (λ on. ((λ x w. refl), good-test)) (l1_tick ∷ l3_tick ∷ l2_tick ∷ []) cut_off_state
      (transition-IsValid condemned_manager clock gpu1 isolation_completed (
        transition-IsValid (with_recovery 3 2 (79 ∷ [])) clock gpu1 (fatal_error [])
          (with_recovery-IsValid 3 2 (79 ∷ []) (omega arith) (omega arith))))
      refl refl (refl, refl) (omega arith) (omega arith)
