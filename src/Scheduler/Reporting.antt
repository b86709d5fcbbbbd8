-- ===== src/Scheduler/Reporting.antt =====
-- What a listed device must show in its checks for its results to be of one kind.
use gpu_dead_node_detector.Health.Status.{fatal}
use gpu_dead_node_detector.Common.{
  ◌∷◌, true, false, Effect, Bool, List, is_ok, ◌≡◌, ok, arith, ◌++◌, All, ◌>>=◌, ok-injective,
  ok_answer, collect, sym, ◌≢◌, collect-split, ◌∙◌, collect-keys, ap,
}
use gpu_dead_node_detector.Detection.Passive
use gpu_dead_node_detector.Detection.Active
use gpu_dead_node_detector.Detection.Pcie
use gpu_dead_node_detector.Detection.Pcie.{L3PcieDetector, is_supported}
use gpu_dead_node_detector.Detection.Pcie.Verdict.{detect_pcie_verdict}
use gpu_dead_node_detector.Health.{event_of, device_key}
use gpu_dead_node_detector.Detection.Passive.{L1PassiveDetector}
use gpu_dead_node_detector.Detection.Active.{active_verdict, L2ActiveDetector}
use gpu_dead_node_detector.Device.{DeviceError, DeviceId, CheckResult}
use gpu_dead_node_detector.Health.Status.{Kind, passed, kind_of, failed}
use gpu_dead_node_detector.Detection.{DetectionResult, pass, fail, has_fatal_finding}
use gpu_dead_node_detector.Detection.Passive.Verdict.{detect_ok, device-detect}
use gpu_dead_node_detector.Detection.Passive.Sees.{sees_nothing, sees_fatal, detect_sees}
use gpu_dead_node_detector.Scheduler.Rounds.{Reports}
use gpu_dead_node_detector.Detection.Active.Verdict.{detect_active_verdict}
use gpu_dead_node_detector.Scheduler.Condemned.{Others-map}

-- The driver lists the same devices in every world, this one among them, and no other has its key.
pub record IsListed {W : Type 0} (lists : Effect W DeviceError (List DeviceId)) (d : DeviceId)
    : Type 0 where
  pub before : List DeviceId
  pub after : List DeviceId
  pub listed : (w : W) → (lists w).0 ≡ ok (before ++ d ∷ after)
  pub none_before : All (λ q. device_key q ≢ device_key d) before
  pub none_after : All (λ q. device_key q ≢ device_key d) after

-- The kind of a result, by whether it passed and has a fatal finding.
abbrev pub kind_shown : Bool → Bool → Kind
kind_shown true _ = passed
kind_shown false true = fatal
kind_shown false false = failed

kind_of-event_of :
    (r : DetectionResult) → kind_of (event_of r) ≡ kind_shown r.passed (has_fatal_finding r)
unfolding event_of
kind_of-event_of r = ground arith

module _ {W : Type 0} where
  sweep-Reports :
      (lists : Effect W DeviceError (List DeviceId))
      (check : DeviceId → Effect W DeviceError DetectionResult) (d : DeviceId) (k : Kind)
      → IsListed lists d
      → ((x : DeviceId) (w : W) → is_ok (check x w).0 ≡ true)
      → ((x : DeviceId) (w : W) (r : DetectionResult) → (check x w).0 ≡ ok r → r.device ≡ x)
      → ((w : W) (r : DetectionResult) → (check d w).0 ≡ ok r → kind_of (event_of r) ≡ k)
      → Reports (lists >>= collect check) d k
  sweep-Reports lists check d k l checks about kind w =
      let v = (lists w).1 in
      let (ys, r, zs, found, ys_found, r_found, zs_found) =
        collect-split check checks l.before l.after d v in
      let keys = collect-keys check (λ r. r.device) about in
      (
        ys,
        zs,
        r,
        rw (l.listed w) found,
        Others-map d ys (rw (keys l.before v ys ys_found) l.none_before),
        Others-map d zs (rw (keys l.after _ zs zs_found) l.none_after),
        about d _ r r_found,
        kind _ r r_found,
      )

  -- In every pass the device shows something, or nothing, and something fatal, or not.
  pub passive-Reports :
      (det : L1PassiveDetector W) (d : DeviceId) (clean deadly : Bool)
      → IsListed det.device.list_devices d
      → ((w : W) → sees_nothing det d w ≡ clean)
      → ((w : W) → sees_fatal det d w ≡ deadly)
      → Reports (Passive.detect_all det) d (kind_shown clean deadly)
  unfolding Passive.detect_all
  passive-Reports det d clean deadly l shows is_deadly =
      sweep-Reports det.device.list_devices (Passive.detect det) d (kind_shown clean deadly) l
        (detect_ok det) (device-detect det)
        (λ w r e.
          let (shown, dead) = detect_sees det d w r e in
          kind_of-event_of r
          ∙ ap (λ b. kind_shown b (has_fatal_finding r)) (shown ∙ shows w)
          ∙ ap (kind_shown clean) (dead ∙ is_deadly w))

  device-active :
      (det : L2ActiveDetector W) (x : DeviceId) (w : W) (r : DetectionResult)
      → (Active.detect det x w).0 ≡ ok r
      → r.device ≡ x
  unfolding Active.detect active_verdict pass fail
  device-active det x w r e = ground arith

  active_ok :
      (det : L2ActiveDetector W) (x : DeviceId) (w : W)
      → is_ok (det.device.run_active_check x det.timeout w).0 ≡ true
      → is_ok (Active.detect det x w).0 ≡ true
  unfolding Active.detect
  active_ok det x w h = ground arith

  active_kind :
      (det : L2ActiveDetector W) (d : DeviceId) (w : W) (r : DetectionResult) (c : CheckResult)
      (good : Bool)
      → (det.device.run_active_check d det.timeout w).0 ≡ ok c
      → c.passed ≡ good
      → (Active.detect det d w).0 ≡ ok r
      → kind_of (event_of r) ≡ kind_shown good false
  active_kind det d w r c good ran is e =
      let (r', e', device, level, shown, types, deadly) = detect_active_verdict det d w ran in
      let same : r' ≡ r = ok-injective (sym e' ∙ e) in
      ap (λ r. kind_of (event_of r)) (sym same)
      ∙ kind_of-event_of r'
      ∙ ap (λ b. kind_shown b (has_fatal_finding r')) (shown ∙ is)
      ∙ ap (kind_shown good) deadly

  -- The checks of all devices run, and this device always passes, or never.
  pub active-Reports :
      (det : L2ActiveDetector W) (d : DeviceId) (good : Bool)
      → IsListed det.device.list_devices d
      → ((x : DeviceId) (w : W) → is_ok (det.device.run_active_check x det.timeout w).0 ≡ true)
      → ((w : W) (c : CheckResult)
          → (det.device.run_active_check d det.timeout w).0 ≡ ok c
          → c.passed ≡ good)
      → Reports (Active.detect_all det) d (kind_shown good false)
  unfolding Active.detect_all
  active-Reports det d good l runs answers =
      sweep-Reports det.device.list_devices (Active.detect det) d (kind_shown good false) l
        (λ x w. active_ok det x w (runs x w)) (device-active det)
        (λ w r e.
          let (c, ran) = ok_answer (det.device.run_active_check d det.timeout w).0 (runs d w) in
          active_kind det d w r c good ran (answers w c ran) e)

  pcie_ok :
      (det : L3PcieDetector W) (x : DeviceId) (w : W)
      → is_ok (det.device.run_pcie_test x w).0 ≡ true
      → is_ok (Pcie.detect det x w).0 ≡ true
  unfolding Pcie.detect
  pcie_ok det x w h = ground arith

  pcie_kind :
      (det : L3PcieDetector W) (d : DeviceId) (w : W) (r : DetectionResult) (c : CheckResult)
      (good : Bool)
      → det.device.supports_pcie_test ≡ true
      → (det.device.run_pcie_test d w).0 ≡ ok c
      → c.passed ≡ good
      → (Pcie.detect det d w).0 ≡ ok r
      → kind_of (event_of r) ≡ kind_shown good false
  pcie_kind det d w r c good has ran is e =
      let (device, deadly, shown) = detect_pcie_verdict det d w e in
      let passes : r.passed ≡ c.passed = ok-injective (rw (has, ran) at shown) in
      kind_of-event_of r
      ∙ ap (λ b. kind_shown b (has_fatal_finding r)) (passes ∙ is)
      ∙ ap (kind_shown good) deadly

  detect_all_there :
      (det : L3PcieDetector W)
      → det.device.supports_pcie_test ≡ true
      → (w : W) → Pcie.detect_all det w ≡ (det.device.list_devices >>= collect (Pcie.detect det)) w
  unfolding Pcie.detect_all is_supported
  detect_all_there det has w = ground (arith, has)

  -- Where devices have the test, those of all devices run, and this device always passes, or never.
  pub pcie-Reports :
      (det : L3PcieDetector W) (d : DeviceId) (good : Bool)
      → IsListed det.device.list_devices d
      → det.device.supports_pcie_test ≡ true
      → ((x : DeviceId) (w : W) → is_ok (det.device.run_pcie_test x w).0 ≡ true)
      → ((w : W) (c : CheckResult) → (det.device.run_pcie_test d w).0 ≡ ok c → c.passed ≡ good)
      → Reports (Pcie.detect_all det) d (kind_shown good false)
  pcie-Reports det d good l has runs answers w =
      let reports =
        sweep-Reports det.device.list_devices (Pcie.detect det) d (kind_shown good false) l
          (λ x w. pcie_ok det x w (runs x w)) (λ x w r e. (detect_pcie_verdict det x w e).0)
          (λ w r e.
            let (c, ran) = ok_answer (det.device.run_pcie_test d w).0 (runs d w) in
            pcie_kind det d w r c good has ran (answers w c ran) e) in
      rw (detect_all_there det has w) (reports w)
