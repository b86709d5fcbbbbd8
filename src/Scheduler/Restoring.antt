-- ===== src/Scheduler/Restoring.antt =====
-- An isolated device that passes every check, where recovery is enabled.
use gpu_dead_node_detector.Common.{
  true, false, ◌+◌, leb, if◌then◌else◌, some, ok, ℕ, ◌≤◌, ◌≡◌, is_ok, arith, List, ◌∙◌, ap, refl,
  Bool,
}
use gpu_dead_node_detector.Health.{thresholds, healthy, StateTransition}
use gpu_dead_node_detector.Health.Status.{
  status_of, fine, cut_off, passed, advance, Status, Policy, state_in, status_of, policy,
}
use gpu_dead_node_detector.Scheduler.{run, DetectionScheduler, Event, State}
use gpu_dead_node_detector.Scheduler.Rounds.{settled, state_of-status}
use gpu_dead_node_detector.Device.{DeviceId, CheckResult}
use gpu_dead_node_detector.Scheduler.Reporting.{IsListed, passive-Reports, active-Reports}
use gpu_dead_node_detector.Detection.Passive.Sees.{sees_nothing, clean_harmless}
use gpu_dead_node_detector.Health.Invariant.{IsValid}
use gpu_dead_node_detector.Scheduler.Forecast.{
  passes, run-forecast, forecast-steady, L3Reports, counted,
}
use gpu_dead_node_detector.Health.Diagram.{state_of}

-- What pass `n` of an isolated device leaves, with this recovery threshold.
abbrev after_passes : ℕ → ℕ → Status
after_passes threshold n =
    if leb n 0 then cut_off 0 else if leb threshold n then fine else cut_off n

next_pass :
    (p : Policy) (threshold n : ℕ)
    → p.recovery ≡ some threshold
    → settled (advance p passed (after_passes threshold n)) ≡ after_passes threshold (n + 1)
unfolding advance
next_pass p threshold n enabled = ground (arith, enabled)

restored : (threshold n : ℕ) → 1 ≤ n → threshold ≤ n → state_in (after_passes threshold n) ≡ healthy
restored threshold n some_pass enough = ground (arith, some_pass, enough)

module _ {W : Type 0} (s : DetectionScheduler W)
    (executes : (done : StateTransition) (w : W)
      → is_ok (s.isolation_executor.execute done w).0 ≡ true) where
  -- The driver lists an isolated device, which shows nothing and passes its active check.
  pub passing_restored :
      (d : DeviceId)
      → IsListed s.l1_detector.device.list_devices d
      → IsListed s.l2_detector.device.list_devices d
      → ((w : W) → sees_nothing s.l1_detector d w ≡ true)
      → ((x : DeviceId) (w : W)
          → is_ok (s.l2_detector.device.run_active_check x s.l2_detector.timeout w).0 ≡ true)
      → ((w : W) (c : CheckResult)
          → (s.l2_detector.device.run_active_check d s.l2_detector.timeout w).0 ≡ ok c
          → c.passed ≡ true)
      → (l3 : Bool) → L3Reports s d (counted l3 passed)
      → (events : List Event) (st : State W) → IsValid st.manager
      → status_of st.manager d ≡ cut_off 0
      → st.manager.recovery_enabled ≡ true
      → 1 ≤ passes l3 events
      → st.manager.recovery_threshold ≤ passes l3 events
      → state_of (run s events st).1.manager d ≡ healthy
  passing_restored d listed listed' clean runs good l3 pcie events st valid was enabled some_pass
        enough =
      let t = thresholds st.manager in
      let p = policy t in
      let final =
        run-forecast s executes d passed passed
          (passive-Reports s.l1_detector d true false listed clean
            (λ w. clean_harmless s.l1_detector d w (clean w)))
          (active-Reports s.l2_detector d true listed' runs good) (counted l3 passed) pcie t events
          (cut_off 0) st ((valid, refl), was) (λ e. ground (arith, e)) in
      let steady =
        forecast-steady p passed (after_passes t.recovery)
          (λ n. next_pass p t.recovery n (rw enabled refl)) l3 events in
      state_of-status _ d
      ∙ ap state_in (final.1 ∙ steady)
      ∙ restored t.recovery (passes l3 events) some_pass enough
