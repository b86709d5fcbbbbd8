-- ===== src/Detection/Passive/Verdict.antt =====
-- What the passive detector answers, for any device interface.
use gpu_dead_node_detector.Detection.{
  has_fatal_finding, l1_passive, zombie_process, DetectionResult, fatal_xid, new_finding,
  high_temperature, double_bit_ecc, pass, fail, Finding,
}
use gpu_dead_node_detector.Device.{is_fatal, DeviceError, DeviceId, DeviceMetrics, XidError}
use gpu_dead_node_detector.Detection.Passive.{
  conclude, detect, detect_all, xid_finding, L1PassiveDetector, metrics_findings,
}
use gpu_dead_node_detector.Common.{
  ℕ, Result, List, any, Bool, ok, ltb, map, ◌≡◌, err, false, [], contains, is_empty, ◌∷◌, arith,
  not, ◌&&◌, ◌||◌, ◌++◌, refl, is_empty-append, any-append, ◌∙◌, is_ok, is_empty-map, true, ap,
  sweep_ok, sweep-keys, ok-injective, sym, Result-cases, inl, inr,
}

-- What the three queries show; one that fails shows nothing.
abbrev pub shows_heat : ℕ → Result DeviceError DeviceMetrics → Bool
shows_heat threshold (ok m) = ltb threshold m.temperature
shows_heat threshold (err e) = false

abbrev pub shows_ecc : Result DeviceError DeviceMetrics → Bool
shows_ecc (ok m) = ltb 0 m.ecc_errors.double_bit
shows_ecc (err e) = false

abbrev pub shown_xids : Result DeviceError (List XidError) → List XidError
shown_xids (ok xids) = xids
shown_xids (err e) = []

abbrev pub shown_pids : Result DeviceError (List ℕ) → List ℕ
shown_pids (ok pids) = pids
shown_pids (err e) = []

fatal-xids :
    (fatal_xids : List ℕ) (xids : List XidError)
    → any (λ f. f.is_fatal) (map (xid_finding fatal_xids) xids)
      ≡ any (λ x. contains fatal_xids x.code) xids
unfolding xid_finding is_fatal fatal_xid new_finding
fatal-xids fatal_xids [] = refl
fatal-xids fatal_xids (x ∷ xids) = ground (arith, fatal-xids fatal_xids xids)

fatal-zombies : (pids : List ℕ) → any (λ f. f.is_fatal) (map zombie_process pids) ≡ false
unfolding zombie_process
fatal-zombies [] = refl
fatal-zombies (p ∷ pids) = fatal-zombies pids

-- What `detect` has found.
abbrev pub Verdict : DetectionResult → DeviceId → Bool → Bool → Type 0
Verdict r d is_clean is_fatal =
    (r.device ≡ d)
    × (r.level ≡ l1_passive)
    × (r.passed ≡ is_clean)
    × (is_empty r.findings ≡ is_clean)
    × (has_fatal_finding r ≡ is_fatal)

abbrev heat_found : ℕ → Result DeviceError DeviceMetrics → List Finding
heat_found threshold (ok m) = metrics_findings threshold m
heat_found threshold (err e) = []

fatal-heat :
    (threshold : ℕ) (m : Result DeviceError DeviceMetrics)
    → any (λ f. f.is_fatal) (heat_found threshold m) ≡ shows_ecc m
unfolding metrics_findings high_temperature double_bit_ecc
fatal-heat threshold (ok m) = ground arith
fatal-heat threshold (err e) = refl

empty-heat :
    (threshold : ℕ) (m : Result DeviceError DeviceMetrics)
    → is_empty (heat_found threshold m) ≡ (not (shows_heat threshold m) && not (shows_ecc m))
unfolding metrics_findings
empty-heat threshold (ok m) = ground arith
empty-heat threshold (err e) = refl

concluded :
    (d : DeviceId) (findings : List Finding)
    → Verdict (conclude d findings) d (is_empty findings) (any (λ f. f.is_fatal) findings)
unfolding conclude pass fail has_fatal_finding
concluded d [] = (refl, refl, refl, refl, refl)
concluded d (f ∷ findings) = (refl, refl, refl, refl, refl)

module _ (threshold : ℕ) (fatal_xids : List ℕ) (m : Result DeviceError DeviceMetrics)
    (xids : List XidError) (pids : List ℕ) where
  clean :
      is_empty
        (heat_found threshold m ++ map (xid_finding fatal_xids) xids ++ map zombie_process pids)
      ≡ (not (shows_heat threshold m) && not (shows_ecc m) && is_empty xids && is_empty pids)
  clean = simp (is_empty-append, is_empty-map, empty-heat) (ground arith)

  deadly :
      any
        (λ f. f.is_fatal)
        (heat_found threshold m ++ map (xid_finding fatal_xids) xids ++ map zombie_process pids)
      ≡ (shows_ecc m || any (λ x. contains fatal_xids x.code) xids)
  deadly = simp (any-append, fatal-heat, fatal-xids, fatal-zombies) (ground arith)

judged :
    (threshold : ℕ) (fatal_xids : List ℕ) (d : DeviceId) (m : Result DeviceError DeviceMetrics)
    (xids : List XidError) (pids : List ℕ)
    → Verdict
        (conclude d
          (heat_found threshold m ++ map (xid_finding fatal_xids) xids ++ map zombie_process pids))
        d
        (not (shows_heat threshold m) && not (shows_ecc m) && is_empty xids && is_empty pids)
        (shows_ecc m || any (λ x. contains fatal_xids x.code) xids)
judged threshold fatal_xids d m xids pids =
    let c =
      concluded d
        (heat_found threshold m ++ map (xid_finding fatal_xids) xids ++ map zombie_process pids) in
    (
      c.0,
      c.1,
      c.2 ∙ clean threshold fatal_xids m xids pids,
      c.3 ∙ clean threshold fatal_xids m xids pids,
      c.4 ∙ deadly threshold fatal_xids m xids pids,
    )

module _ {W : Type 0} (det : L1PassiveDetector W) (d : DeviceId) (w : W) where
  abbrev after_metrics : W
  after_metrics = (det.device.get_metrics d w).1

  abbrev after_xids : W
  after_xids = (det.device.get_xid_errors d after_metrics).1

  -- `detect` never fails. Its result passes exactly when the temperature is within the threshold,
  -- there is no double-bit ECC error, no XID error and no zombie process, and is fatal exactly when
  -- there is a double-bit ECC error or an XID error whose code is listed as fatal; a query that
  -- fails counts as showing nothing.
  pub detect_verdict :
      let metrics = (det.device.get_metrics d w).0 in
      let xids = shown_xids (det.device.get_xid_errors d after_metrics).0 in
      let pids = shown_pids (det.device.check_zombie_processes d after_xids).0 in
      (r : DetectionResult) × ((detect det d w).0 ≡ ok r)
      × Verdict r d
          (not (shows_heat det.temperature_threshold metrics)
            && not (shows_ecc metrics)
            && is_empty xids
            && is_empty pids)
          (shows_ecc metrics || any (λ x. contains det.fatal_xids x.code) xids)
  unfolding detect conclude metrics_findings high_temperature double_bit_ecc pass fail
      has_fatal_finding
  detect_verdict =
      let metrics = (det.device.get_metrics d w).0 in
      let xids = (det.device.get_xid_errors d after_metrics).0 in
      let pids = (det.device.check_zombie_processes d after_xids).0 in
      (
        conclude d (
            heat_found det.temperature_threshold metrics
            ++ map (xid_finding det.fatal_xids) (shown_xids xids)
            ++ map zombie_process (shown_pids pids)),
        ground arith,
        judged det.temperature_threshold det.fatal_xids d metrics (shown_xids xids)
            (shown_pids pids),
      )

pub detect_ok :
    {W : Type 0} (det : L1PassiveDetector W) (d : DeviceId) (w : W)
    → is_ok (detect det d w).0 ≡ true
detect_ok det d w = rw (detect_verdict det d w).1

pub device-detect :
    {W : Type 0} (det : L1PassiveDetector W) (d : DeviceId) (w : W) (r : DetectionResult)
    → (detect det d w).0 ≡ ok r
    → r.device ≡ d
device-detect det d w r e =
    let v = detect_verdict det d w in ap (λ r. r.device) (ok-injective (sym e ∙ v.1)) ∙ v.2.0

-- Wherever the devices can be listed, `detect_all` succeeds with one result for each of them, in the
-- order of the list; no device's failing queries stop it.
pub detect_all_covers :
    {W : Type 0} (det : L1PassiveDetector W) (w : W) {devices : List DeviceId}
    → (det.device.list_devices w).0 ≡ ok devices
    → (results : List DetectionResult) × ((detect_all det w).0 ≡ ok results)
      × (map (λ r. r.device) results ≡ devices)
unfolding detect_all
detect_all_covers det w {devices} listed =
    let whole = sweep_ok det.device.list_devices (detect det) (detect_ok det) w in
    elim (Result-cases (detect_all det w).0) [
      | inl (results, done) ↦ (
        results,
        done,
        sweep-keys det.device.list_devices (detect det) (λ r. r.device) (device-detect det) w listed
            done,
      )
      | inr (e, failed) ↦ absurd (cc)
    ]
