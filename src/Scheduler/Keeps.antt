-- ===== src/Scheduler/Keeps.antt =====
-- What the handling of one result keeps of the manager and the world, the passes over results keep; and
-- what the detectors keep too, the handlers and the loop keep.
use gpu_dead_node_detector.Detection.Passive
use gpu_dead_node_detector.Detection.Active
use gpu_dead_node_detector.Detection.Pcie
use gpu_dead_node_detector.Common.{some, ◌≡◌}
use gpu_dead_node_detector.Scheduler.{
  State, DetectionScheduler, process_result, handle, handle_all, Event, run, on_event,
  update_metrics, run_l1_detection, run_l2_detection, run_l3_detection, shutdown_changed, l1_tick,
  l2_tick, l3_tick,
}
use gpu_dead_node_detector.Detection.{DetectionResult}
use gpu_dead_node_detector.Health.{GpuHealthManager}
use gpu_dead_node_detector.Common.{
  Bool-cases, continue_keeps, List, for_each_keeps, Option-cases, is_none, inl, ◌∷◌, inr, true, [],
  false,
}
use gpu_dead_node_detector.Detection.Pcie.{L3PcieDetector}

module _ {W : Type 0} (s : DetectionScheduler W) (P : GpuHealthManager → W → Type 0)
    (keep : (r : DetectionResult) (st : State W)
      → P st.manager st.world
      → let final = (process_result s r st).1 in P final.manager final.world) where
  abbrev Kept : State W → Type 0
  Kept st = P st.manager st.world

  handle_keeps : (r : DetectionResult) (st : State W) → Kept st → Kept (handle s r st).1
  unfolding handle update_metrics
  handle_keeps r st v =
      let processed = keep r st v in
      continue_keeps Kept (process_result s r st).0 _ _ processed (λ done. processed)

  pub handle_all_keeps :
      (rs : List DetectionResult) (st : State W) → Kept st → Kept (handle_all s rs st).1
  unfolding handle_all
  handle_all_keeps = for_each_keeps Kept (handle s) handle_keeps

  module _
      (asks1 : (m : GpuHealthManager) (w : W) → P m w → P m (Passive.detect_all s.l1_detector w).1)
      (asks2 : (m : GpuHealthManager) (w : W) → P m w → P m (Active.detect_all s.l2_detector w).1)
      (asks3 : (det : L3PcieDetector W)
        → s.l3_detector ≡ some det
        → (m : GpuHealthManager) (w : W) → P m w
        → P m (Pcie.detect_all det w).1) where
    l1_keeps : (st : State W) → Kept st → Kept (run_l1_detection s st).1
    unfolding run_l1_detection
    l1_keeps st v =
        let asked = asks1 st.manager st.world v in
        continue_keeps Kept _ (handle_all s) _ asked (λ rs. handle_all_keeps rs _ asked)

    l2_keeps : (st : State W) → Kept st → Kept (run_l2_detection s st).1
    unfolding run_l2_detection
    l2_keeps st v =
        let asked = asks2 st.manager st.world v in
        continue_keeps Kept _ (handle_all s) _ asked (λ rs. handle_all_keeps rs _ asked)

    l3_keeps : (st : State W) → Kept st → Kept (run_l3_detection s st).1
    unfolding run_l3_detection
    l3_keeps st v = elim (Option-cases s.l3_detector) [
      | inl e ↦ rw e v
      | inr (det, e) ↦
          let asked = asks3 det e st.manager st.world v in
          rw e (continue_keeps Kept _ (handle_all s) _ asked (λ rs. handle_all_keeps rs _ asked))
    ]

    on_event_keeps : (e : Event) (st : State W) → Kept st → Kept (on_event s e st)
    unfolding on_event
    on_event_keeps l1_tick st v = l1_keeps st v
    on_event_keeps l2_tick st v = l2_keeps st v
    on_event_keeps l3_tick st v = elim (Bool-cases (is_none s.l3_interval)) [
      | inl e ↦ rw e v
      | inr e ↦ rw e (l3_keeps st v)
    ]
    on_event_keeps (shutdown_changed b) st v = v

    pub run_keeps : (events : List Event) (st : State W) → Kept st → Kept (run s events st).1
    unfolding run
    run_keeps [] st v = v
    run_keeps (shutdown_changed true ∷ events) st v = v
    run_keeps (shutdown_changed false ∷ events) st v = run_keeps events st v
    run_keeps (l1_tick ∷ events) st v = run_keeps events _ (on_event_keeps l1_tick st v)
    run_keeps (l2_tick ∷ events) st v = run_keeps events _ (on_event_keeps l2_tick st v)
    run_keeps (l3_tick ∷ events) st v = run_keeps events _ (on_event_keeps l3_tick st v)

-- What the handling of one result keeps of the manager, the loop keeps.
pub run_keeps_manager :
    {W : Type 0} (s : DetectionScheduler W) (P : GpuHealthManager → Type 0)
    → ((r : DetectionResult) (st : State W) → P st.manager → P (process_result s r st).1.manager)
    → (events : List Event) (st : State W) → P st.manager
    → P (run s events st).1.manager
run_keeps_manager s P keep events st v =
    run_keeps s (λ m w. P m) keep (λ m w p. p) (λ m w p. p) (λ det e m w p. p) events st v
