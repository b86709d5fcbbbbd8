-- ===== src/Main/Persistent.antt =====
-- A device of the assembled program that fails in every pass, from the start of the program to the
-- node.
use gpu_dead_node_detector.Main.EndToEnd.{execute_ok}
use gpu_dead_node_detector.Detection.Keeps.{DriverKeeps}
use gpu_dead_node_detector.Health.{healthy, isolated, with_recovery, new_manager, get, suspected}
use gpu_dead_node_detector.Common.{
  true, false, ok, inl, inr, refl, leb, ℕ, ◌≡◌, String, if◌then◌else◌, ltb, lookup, arith,
  Bool-cases, ◌<◌, u32_mod, ◌≤◌, is_ok, List, ◌∙◌, ◌&&◌,
}
use gpu_dead_node_detector.Scheduler.{run, Event}
use gpu_dead_node_detector.Scheduler.Failing.{failing_isolated}
use gpu_dead_node_detector.Main.{
  health_manager, Surroundings, passive_detector, active_detector, assemble,
}
use gpu_dead_node_detector.Config.{Config}
use gpu_dead_node_detector.Health.Diagram.{state_of}
use gpu_dead_node_detector.Device.{DeviceInterface, DeviceId, CheckResult}
use gpu_dead_node_detector.Kube.{Api, Server}
use gpu_dead_node_detector.Kube.Operator.Success.{IsUp}
use gpu_dead_node_detector.Detection.Keeps.{DriverKeeps}
use gpu_dead_node_detector.Main.Containment.{IsClosed, detectors, IsContained, run-IsContained}
use gpu_dead_node_detector.Scheduler.Reporting.{IsListed}
use gpu_dead_node_detector.Detection.Passive.Sees.{sees_nothing, sees_fatal}
use gpu_dead_node_detector.Main.Endings.{started, health_manager_lem}
use gpu_dead_node_detector.Main.EndToEnd.{execute_ok}
use gpu_dead_node_detector.Scheduler.Forecast.{passes, passes_more}
use gpu_dead_node_detector.Main.PcieBranch.{PcieAnswers, pcie_branch}

health_manager_fresh :
    (c : Config) (d : DeviceId)
    → (state_of (health_manager c) d ≡ healthy)
      × ((health_manager c).failure_threshold ≡ c.health.failure_threshold)
unfolding health_manager with_recovery new_manager state_of get lookup
health_manager_fresh c d = elim (Bool-cases c.recovery.enabled) [
  | inl on ↦ rw on (refl, refl)
  | inr off ↦ rw off (refl, refl)
]

starting-IsContained :
    {W : Type 0} {api : Api W} (server : Server api) (c : Config) (name : String) (w : W)
    → IsContained server name (health_manager c) w
starting-IsContained server c name w d is = ground (arith, is, (health_manager_fresh c d).0)

enough :
    (threshold n : ℕ)
    → 2 ≤ n
    → threshold ≤ n
    → (if leb n 0
        then healthy
        else if ltb n 2
        then suspected
        else if ltb n threshold
        then suspected
        else isolated)
      ≡ isolated
enough threshold n two all = ground (arith, two, all)

module _ {W : Type 0} (c : Config) (name : String) (around : Surroundings W)
    (device : DeviceInterface W) (api : Api W) (server : Server api) where
  -- The assembled program, outside a dry run, with cordoning switched on and with an API server that
  -- answers, has just started. The driver lists the same devices in every world, and one of them, with
  -- a key that no other listed device has, shows something that is not fatal in every passive check and
  -- never passes its active check, while the active checks of all devices run. If L3 is on and the
  -- driver has a PCIe test, the device never passes that either, while the tests of all devices run.
  -- Once the passive and active passes number at least two and at least the failure threshold, that
  -- device is isolated, and the node is cordoned and has a taint with the key nvidia.com/gpu-health.
  -- The thresholds fit a u32, as their types say, and no operation of the driver takes a closed node
  -- from the cluster.
  pub persistent_failure_closes_node :
      c.dry_run ≡ false
      → c.isolation.cordon ≡ true
      → c.health.failure_threshold < u32_mod
      → c.recovery.threshold < u32_mod
      → IsUp api
      → DriverKeeps (λ w. IsClosed (server.stored name w)) device
      → (d : DeviceId) → IsListed device.list_devices d
      → ((w : W) → sees_nothing (passive_detector c device) d w ≡ false)
      → ((w : W) → sees_fatal (passive_detector c device) d w ≡ false)
      → ((x : DeviceId) (w : W)
          → is_ok (device.run_active_check x c.health.active_check_timeout w).0 ≡ true)
      → ((w : W) (r : CheckResult)
          → (device.run_active_check d c.health.active_check_timeout w).0 ≡ ok r
          → r.passed ≡ false)
      → PcieAnswers c device d false
      → (events : List Event) (devices : List DeviceId) (w : W) → 2 ≤ passes false events
      → c.health.failure_threshold ≤ passes false events
      → let (ended, final) = run (assemble c name around device api) events (started c devices w) in
        (state_of final.manager d ≡ isolated) × IsClosed (server.stored name final.world)
  unfolding passive_detector active_detector
  persistent_failure_closes_node wet cordons fits fits' up drives d listed unclean harmless runs
        fails tests events devices w two enough_passes =
      let s = assemble c name around device api in
      let (l1, l2, l3, interval) = detectors c name around device api in
      let counts = c.l3_enabled && device.supports_pcie_test in
      let (fresh, threshold) = health_manager_fresh c d in
      let state =
        failing_isolated s (λ done u. rw (execute_ok c name around device api up done u) refl) d
          (rw l1 listed) (rw l2 listed) (rw l2 runs) (rw l2 fails) events (started c devices w)
          (health_manager_lem c fits fits').0 fresh (rw l1 unclean) (rw l1 harmless) counts
          (pcie_branch c name around device api d false listed tests) in
      let is : state_of (run s events (started c devices w)).1.manager d ≡ isolated =
        state
        ∙ rw threshold (
            enough c.health.failure_threshold (passes counts events)
              (omega (arith, passes_more counts events, two))
              (omega (arith, passes_more counts events, enough_passes))) in
      let start : IsContained server name (health_manager c) w =
        starting-IsContained server c name w in
      (
        is,
        run-IsContained c name around device api server wet cordons up drives events
            (started c devices w) start d is,
      )
