-- ===== src/Main/Recovered.antt =====
-- An isolated device of the assembled program that passes every check, and its node.
use gpu_dead_node_detector.Device.{DeviceId, CheckResult}
use gpu_dead_node_detector.Health.{healthy}
use gpu_dead_node_detector.Health.Status.{cut_off, status_of}
use gpu_dead_node_detector.Common.{
  true, false, ok, refl, String, ◌≡◌, is_ok, List, ◌≤◌, ◌&&◌, arith,
}
use gpu_dead_node_detector.Scheduler.{run, Event, State}
use gpu_dead_node_detector.Scheduler.Restoring.{passing_restored}
use gpu_dead_node_detector.Detection.Keeps.{DriverKeeps}
use gpu_dead_node_detector.Main.EndToEnd.{execute_ok}
use gpu_dead_node_detector.Config.{Config}
use gpu_dead_node_detector.Main.{Surroundings, passive_detector, active_detector, assemble}
use gpu_dead_node_detector.Device.{DeviceInterface, DeviceId}
use gpu_dead_node_detector.Kube.{Api, Server}
use gpu_dead_node_detector.Kube.Operator.Success.{IsUp}
use gpu_dead_node_detector.Main.Containment.{detectors, IsClosed, run-IsClosed}
use gpu_dead_node_detector.Scheduler.Reporting.{IsListed}
use gpu_dead_node_detector.Detection.Passive.Sees.{sees_nothing}
use gpu_dead_node_detector.Health.Invariant.{IsValid}
use gpu_dead_node_detector.Scheduler.Forecast.{passes, passes_more}
use gpu_dead_node_detector.Health.Diagram.{state_of}
use gpu_dead_node_detector.Main.PcieBranch.{PcieAnswers, pcie_branch}

module _ {W : Type 0} (c : Config) (name : String) (around : Surroundings W)
    (device : DeviceInterface W) (api : Api W) (server : Server api) where
  -- The assembled program, outside a dry run, with cordoning switched on and with an API server that
  -- answers, is in a state with a valid manager in which recovery is enabled. One device is isolated
  -- there, with no pass counted since, and its node is closed. The driver lists the same devices in
  -- every world, this one among them, and no other of them has its key. Every check of the device
  -- passes from now on, the PCIe test included if L3 is on and the driver has it. Once the passive and
  -- active passes number at least one and at least the recovery threshold, which may be 0, the manager
  -- holds the device to be healthy, and yet the node is still cordoned and still has the taint: nothing
  -- reopens it. The active checks of all devices run, as do the PCIe tests where they count, and no
  -- operation of the driver takes a closed node from the cluster.
  pub recovered-IsClosed :
      c.dry_run ≡ false
      → c.isolation.cordon ≡ true
      → IsUp api
      → DriverKeeps (λ w. IsClosed (server.stored name w)) device
      → (d : DeviceId) → IsListed device.list_devices d
      → ((w : W) → sees_nothing (passive_detector c device) d w ≡ true)
      → ((x : DeviceId) (w : W)
          → is_ok (device.run_active_check x c.health.active_check_timeout w).0 ≡ true)
      → ((w : W) (r : CheckResult)
          → (device.run_active_check d c.health.active_check_timeout w).0 ≡ ok r
          → r.passed ≡ true)
      → PcieAnswers c device d true
      → (events : List Event) (st : State W) → IsValid st.manager
      → status_of st.manager d ≡ cut_off 0
      → st.manager.recovery_enabled ≡ true
      → IsClosed (server.stored name st.world)
      → 1 ≤ passes false events
      → st.manager.recovery_threshold ≤ passes false events
      → let final = (run (assemble c name around device api) events st).1 in
        (state_of final.manager d ≡ healthy) × IsClosed (server.stored name final.world)
  unfolding passive_detector active_detector
  recovered-IsClosed wet cordons up drives d listed clean runs good tests events st valid was
        enabled closed some_pass enough =
      let s = assemble c name around device api in
      let counts = c.l3_enabled && device.supports_pcie_test in
      let (l1, l2, l3, interval) = detectors c name around device api in
      (
        passing_restored s (λ done u. rw (execute_ok c name around device api up done u) refl) d
            (rw l1 listed) (rw l2 listed) (rw l1 clean) (rw l2 runs) (rw l2 good) counts
            (pcie_branch c name around device api d true listed tests) events st valid was enabled
            (omega (arith, passes_more counts events, some_pass))
            (omega (arith, passes_more counts events, enough)),
        run-IsClosed c name around device api server wet cordons up drives events st closed,
      )
