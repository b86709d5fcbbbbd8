-- ===== src/Detection/Passive/Sees.antt =====
-- What a device shows to the passive detector, and the result that it gets.
use gpu_dead_node_detector.Detection.{has_fatal_finding, DetectionResult}
use gpu_dead_node_detector.Device.{DeviceId, XidError}
use gpu_dead_node_detector.Detection.Passive.{detect, L1PassiveDetector}
use gpu_dead_node_detector.Common.{
  ℕ, List, any, Bool, ok, ◌≡◌, false, [], contains, is_empty, ◌∷◌, arith, not, ◌&&◌, ◌||◌, ◌∙◌,
  true, ap, ok-injective, sym, inl, inr, Bool-cases,
}
use gpu_dead_node_detector.Detection.Passive.Verdict.{
  detect_verdict, shows_heat, shows_ecc, shown_xids, shown_pids,
}

-- A double-bit ECC error, or an XID error whose code is listed as fatal, in the world in which the
-- device is asked.
abbrev pub sees_fatal : {W : Type 0} → L1PassiveDetector W → DeviceId → W → Bool
sees_fatal det d w =
    let (metrics, w1) = det.device.get_metrics d w in
    let (xids, w2) = det.device.get_xid_errors d w1 in
    shows_ecc metrics || any (λ x. contains det.fatal_xids x.code) (shown_xids xids)

-- A temperature within the threshold, no double-bit ECC error, no XID error and no zombie process.
abbrev pub sees_nothing : {W : Type 0} → L1PassiveDetector W → DeviceId → W → Bool
sees_nothing det d w =
    let (metrics, w1) = det.device.get_metrics d w in
    let (xids, w2) = det.device.get_xid_errors d w1 in
    let (pids, w3) = det.device.check_zombie_processes d w2 in
    not (shows_heat det.temperature_threshold metrics)
    && not (shows_ecc metrics)
    && is_empty (shown_xids xids)
    && is_empty (shown_pids pids)

-- What is fatal is not clean.
unclean :
    (heat ecc : Bool) (xids : List XidError) (pids : List ℕ) (p : XidError → Bool)
    → (ecc || any p xids) ≡ true
    → (not heat && not ecc && is_empty xids && is_empty pids) ≡ false
unclean heat ecc [] pids p h = ground arith
unclean heat ecc (x ∷ xids) pids p h = ground arith

pub clean_harmless :
    {W : Type 0} (det : L1PassiveDetector W) (d : DeviceId) (w : W)
    → sees_nothing det d w ≡ true
    → sees_fatal det d w ≡ false
clean_harmless det d w clean = elim (Bool-cases (sees_fatal det d w)) [
  | inl fatal ↦ ground (arith, sym clean ∙ unclean _ _ _ _ _ fatal)
  | inr harmless ↦ harmless
]

-- The result of a device, by what it shows.
pub detect_sees :
    {W : Type 0} (det : L1PassiveDetector W) (d : DeviceId) (w : W) (r : DetectionResult)
    → (detect det d w).0 ≡ ok r
    → (r.passed ≡ sees_nothing det d w) × (has_fatal_finding r ≡ sees_fatal det d w)
detect_sees det d w r e =
    let (r', e', verdict) = detect_verdict det d w in
    let same : r' ≡ r = ok-injective (sym e' ∙ e) in
    (ap (λ r. r.passed) (sym same) ∙ verdict.2, ap has_fatal_finding (sym same) ∙ verdict.4)

pub detect_condemns :
    {W : Type 0} (det : L1PassiveDetector W) (d : DeviceId) (w : W) (r : DetectionResult)
    → sees_fatal det d w ≡ true
    → (detect det d w).0 ≡ ok r
    → (r.passed ≡ false) × (has_fatal_finding r ≡ true)
detect_condemns det d w r fatal e =
    let (clean, deadly) = detect_sees det d w r e in
    (clean ∙ unclean _ _ _ _ _ fatal, deadly ∙ fatal)
