-- ===== src/Detection/Keeps.antt =====
-- What a driver keeps of the world, the detectors keep.
use gpu_dead_node_detector.Detection.Passive
use gpu_dead_node_detector.Detection.Active
use gpu_dead_node_detector.Detection.Pcie
use gpu_dead_node_detector.Common.{
  Keeps, bind-Keeps, collect-Keeps, collect, if◌then◌else◌, ◌≡◌, arith, Bool-cases, not, ◌&&◌, inl,
  inr, ℕ,
}
use gpu_dead_node_detector.Device.{DeviceInterface, DeviceId}
use gpu_dead_node_detector.Detection.Passive.{L1PassiveDetector}
use gpu_dead_node_detector.Detection.Active.{L2ActiveDetector}
use gpu_dead_node_detector.Detection.Pcie.{L3PcieDetector, is_supported}

-- Each operation of a driver keeps this of the world.
pub record DriverKeeps {W : Type 0} (P : W → Type 0) (device : DeviceInterface W) : Type 0 where
  pub lists : Keeps P device.list_devices
  pub measures : (d : DeviceId) → Keeps P (device.get_metrics d)
  pub reads_xids : (d : DeviceId) → Keeps P (device.get_xid_errors d)
  pub finds_zombies : (d : DeviceId) → Keeps P (device.check_zombie_processes d)
  pub checks : (d : DeviceId) (limit : ℕ) → Keeps P (device.run_active_check d limit)
  pub tests_pcie : (d : DeviceId) → Keeps P (device.run_pcie_test d)

module _ {W : Type 0} (P : W → Type 0) where
  world-passive :
      (det : L1PassiveDetector W) (d : DeviceId) (w : W)
      → let measured = (det.device.get_metrics d w).1 in
        let asked = (det.device.get_xid_errors d measured).1 in
        (Passive.detect det d w).1 ≡ (det.device.check_zombie_processes d asked).1
  unfolding Passive.detect
  world-passive det d w = ground arith

  pub passive-Keeps :
      (det : L1PassiveDetector W) → DriverKeeps P det.device → Keeps P (Passive.detect_all det)
  unfolding Passive.detect_all
  passive-Keeps det k =
      bind-Keeps P det.device.list_devices (collect (Passive.detect det)) k.lists (
        collect-Keeps P (Passive.detect det) (λ d w p.
          rw (world-passive det d w) (k.finds_zombies d _ (k.reads_xids d _ (k.measures d w p)))))

  world-active :
      (det : L2ActiveDetector W) (d : DeviceId) (w : W)
      → (Active.detect det d w).1 ≡ (det.device.run_active_check d det.timeout w).1
  unfolding Active.detect
  world-active det d w = ground arith

  pub active-Keeps :
      (det : L2ActiveDetector W) → DriverKeeps P det.device → Keeps P (Active.detect_all det)
  unfolding Active.detect_all
  active-Keeps det k = bind-Keeps P det.device.list_devices (collect (Active.detect det)) k.lists (
      collect-Keeps P (Active.detect det)
        (λ d w p. rw (world-active det d w) (k.checks d det.timeout w p)))

  world-pcie :
      (det : L3PcieDetector W) (d : DeviceId) (w : W)
      → (Pcie.detect det d w).1
        ≡ (if det.device.supports_pcie_test then (det.device.run_pcie_test d w).1 else w)
  unfolding Pcie.detect
  world-pcie det d w = ground arith

  pcie_check-Keeps :
      (det : L3PcieDetector W)
      → DriverKeeps P det.device
      → (d : DeviceId) → Keeps P (Pcie.detect det d)
  pcie_check-Keeps det k d w p = elim (Bool-cases det.device.supports_pcie_test) [
    | inl able ↦ rw (world-pcie det d w, able) (k.tests_pcie d w p)
    | inr unable ↦ rw (world-pcie det d w, unable) p
  ]

  pub pcie-Keeps :
      (det : L3PcieDetector W) → DriverKeeps P det.device → Keeps P (Pcie.detect_all det)
  unfolding Pcie.detect_all
  pcie-Keeps det k w p =
      let asked =
        bind-Keeps P det.device.list_devices (collect (Pcie.detect det)) k.lists
          (collect-Keeps P (Pcie.detect det) (pcie_check-Keeps det k)) w p in
      elim (Bool-cases (not (is_supported det) && det.config.skip_if_unsupported)) [
        | inl skipped ↦ rw skipped p
        | inr run ↦ rw run asked
      ]
