-- ===== src/Scheduler/Masking.antt =====
-- An active pass in which the check of one device cannot be run.
use gpu_dead_node_detector.Detection.Active
use gpu_dead_node_detector.Common.{◌++◌, ◌∷◌, false, List, is_ok, ◌≡◌, arith, ok, collect_fails}
use gpu_dead_node_detector.Detection.Active.{L2ActiveDetector}
use gpu_dead_node_detector.Scheduler.{run_l2_detection, DetectionScheduler, State}
use gpu_dead_node_detector.Device.{DeviceId}

check_not_run :
    {W : Type 0} (det : L2ActiveDetector W) (d : DeviceId) (w : W)
    → is_ok (det.device.run_active_check d det.timeout w).0 ≡ false
    → is_ok (Active.detect det d w).0 ≡ false
unfolding Active.detect
check_not_run det d w h = ground (arith, h)

detect_all_fails :
    {W : Type 0} (det : L2ActiveDetector W) (before after : List DeviceId) (d : DeviceId) (w v : W)
    → det.device.list_devices w ≡ (ok (before ++ d ∷ after), v)
    → ((u : W) → is_ok (det.device.run_active_check d det.timeout u).0 ≡ false)
    → is_ok (Active.detect_all det w).0 ≡ false
unfolding Active.detect_all
detect_all_fails det before after d w v lists fails =
    rw lists
      (collect_fails (Active.detect det) before after d (λ u. check_not_run det d u (fails u)) v)

failed_detection :
    {W : Type 0} (s : DetectionScheduler W) (st : State W)
    → is_ok (Active.detect_all s.l2_detector st.world).0 ≡ false
    → let (answer, final) = run_l2_detection s st in
      (is_ok answer ≡ false) × (final.manager ≡ st.manager) × (final.updates ≡ st.updates)
unfolding run_l2_detection
failed_detection s st fails = ground (arith, fails)

-- Where the check of one listed device can never be run, an active pass judges no device: it ends
-- with an error, and the manager and the metrics are what they were, however the checks of the other
-- devices, before it in the list or after it, turn out.
pub unrunnable_check_hides_pass :
    {W : Type 0} (s : DetectionScheduler W) (st : State W) (before after : List DeviceId)
    (d : DeviceId) (v : W)
    → s.l2_detector.device.list_devices st.world ≡ (ok (before ++ d ∷ after), v)
    → ((w : W) → is_ok (s.l2_detector.device.run_active_check d s.l2_detector.timeout w).0 ≡ false)
    → let (answer, final) = run_l2_detection s st in
      (is_ok answer ≡ false) × (final.manager ≡ st.manager) × (final.updates ≡ st.updates)
unrunnable_check_hides_pass s st before after d v lists fails =
    failed_detection s st (detect_all_fails s.l2_detector before after d st.world v lists fails)
