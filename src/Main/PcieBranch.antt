-- ===== src/Main/PcieBranch.antt =====
-- The third branch of the loop in the assembled program.
use gpu_dead_node_detector.Common.{refl, ◌∙◌, arith, none, some}
use gpu_dead_node_detector.Detection.Pcie.{new_pcie_detector}
use gpu_dead_node_detector.Config.{Config}
use gpu_dead_node_detector.Device.{DeviceInterface, DeviceId, CheckResult}
use gpu_dead_node_detector.Common.{
  String, Bool, ◌&&◌, ◌≡◌, true, is_ok, false, ok, Bool-cases, inl, inr,
}
use gpu_dead_node_detector.Main.{Surroundings, assemble}
use gpu_dead_node_detector.Kube.{Api}
use gpu_dead_node_detector.Scheduler.{DetectionScheduler}
use gpu_dead_node_detector.Scheduler.Reporting.{IsListed, kind_shown, pcie-Reports}
use gpu_dead_node_detector.Scheduler.Forecast.{L3Reports, counted, without_interval, without_test}
use gpu_dead_node_detector.Main.Containment.{detectors}
use gpu_dead_node_detector.Health.Status.{Kind}

-- If L3 is on and the driver has the test, those of all devices run, and this device always passes,
-- or never.
abbrev pub PcieAnswers : {W : Type 0} → Config → DeviceInterface W → DeviceId → Bool → Type 0
PcieAnswers {W} c device d good =
    c.l3_enabled && device.supports_pcie_test ≡ true
    → ((x : DeviceId) (w : W) → is_ok (device.run_pcie_test x w).0 ≡ true)
      × ((w : W) (r : CheckResult) → (device.run_pcie_test d w).0 ≡ ok r → r.passed ≡ good)

module _ {W : Type 0} (s : DetectionScheduler W) (d : DeviceId) (k : Kind) where
  L3Reports-counted :
      (b : Bool)
      → (b ≡ false → L3Reports s d none)
      → (b ≡ true → L3Reports s d (some k))
      → L3Reports s d (counted b k)
  L3Reports-counted false idle busy = idle refl
  L3Reports-counted true idle busy = busy refl

both : (a b : Bool) → a && b ≡ true → (a ≡ true) × (b ≡ true)
both a b e = ground (arith, e)

module _ {W : Type 0} (c : Config) (name : String) (around : Surroundings W)
    (device : DeviceInterface W) (api : Api W) where
  abbrev assembled : DetectionScheduler W
  assembled = assemble c name around device api

  branch_idle :
      c.l3_enabled && device.supports_pcie_test ≡ false
      → (d : DeviceId) → L3Reports assembled d none
  unfolding new_pcie_detector
  branch_idle idle d =
      let (l1, l2, detector, interval) = detectors c name around device api in
      elim (Bool-cases c.l3_enabled) [
        | inl on ↦
            without_test assembled (new_pcie_detector device) (detector ∙ simp (on) refl)
              (rw on at idle) refl d
        | inr off ↦ without_interval assembled d (interval ∙ simp (off) refl)
      ]

  -- It does nothing if L3 is off or the driver has no test, and reports what the test says otherwise.
  pub pcie_branch :
      (d : DeviceId) (good : Bool)
      → IsListed device.list_devices d
      → PcieAnswers c device d good
      → L3Reports assembled d
          (counted (c.l3_enabled && device.supports_pcie_test) (kind_shown good false))
  unfolding new_pcie_detector
  pcie_branch d good listed answers =
      let (l1, l2, detector, interval) = detectors c name around device api in
      L3Reports-counted assembled d (kind_shown good false)
        (c.l3_enabled && device.supports_pcie_test) (λ idle. branch_idle idle d)
        (λ busy.
          let (on, there) = both c.l3_enabled device.supports_pcie_test busy in
          let (runs, is) = answers busy in
          (
            simp (interval, on) refl,
            new_pcie_detector device,
            detector ∙ simp (on) refl,
            pcie-Reports (new_pcie_detector device) d good listed there runs is,
          ))
