-- ===== src/Scheduler/Failing.antt =====
-- A device that fails in every pass, and one that fails in every active pass only.
use gpu_dead_node_detector.Health.{thresholds}
use gpu_dead_node_detector.Common.{
  ◌∷◌, [], true, false, ℕ, ◌+◌, ltb, leb, List, Bool, if◌then◌else◌, ◌≡◌, arith, ◌&&◌, ◌⊎◌, ap, ◌∙◌,
  inl, inr, is_ok, sym, refl, ok, Option,
}
use gpu_dead_node_detector.Scheduler.{
  l1_tick, l2_tick, l3_tick, shutdown_changed, Event, DetectionScheduler, State, run,
}
use gpu_dead_node_detector.Health.{healthy, suspected, isolated, StateTransition, thresholds}
use gpu_dead_node_detector.Health.Status.{
  fine, doubted, cut_off, failed, Status, advance, Policy, state_in, passed, Kind, policy,
}
use gpu_dead_node_detector.Detection.Passive
use gpu_dead_node_detector.Detection.Active
use gpu_dead_node_detector.Scheduler.Rounds.{settled, Reports, state_of-status}
use gpu_dead_node_detector.Scheduler.Forecast.{
  forecast, run-forecast, passes, forecast-steady, L3Reports, counted,
}
use gpu_dead_node_detector.Device.{DeviceId, CheckResult}
use gpu_dead_node_detector.Health.Invariant.{IsValid}
use gpu_dead_node_detector.Health.Diagram.{state_of}
use gpu_dead_node_detector.Scheduler.Reporting.{IsListed, passive-Reports, active-Reports}
use gpu_dead_node_detector.Detection.Passive.Sees.{sees_nothing, sees_fatal, clean_harmless}

-- What failure `n` leaves: one failure never isolates.
abbrev pub after_failures : ℕ → ℕ → Status
after_failures threshold n =
    if leb n 0
    then fine
    else if ltb n 2
    then doubted n
    else if ltb n threshold
    then doubted n
    else cut_off 0

next_failure :
    (p : Policy) (n : ℕ)
    → settled (advance p failed (after_failures p.failure n)) ≡ after_failures p.failure (n + 1)
unfolding advance
next_failure p n = ground arith

-- No two active passes without a passive one between them; `b` says that an active pass may come
-- next.
abbrev pub is_spaced : Bool → List Event → Bool
is_spaced b [] = true
is_spaced b (shutdown_changed _ ∷ events) = is_spaced b events
is_spaced b (l1_tick ∷ events) = is_spaced true events
is_spaced b (l2_tick ∷ events) = b && is_spaced false events
is_spaced b (l3_tick ∷ events) = is_spaced b events

-- At most one failure since the last pass; `b` as above.
abbrev IsBarely : Bool → Status → Type 0
IsBarely true x = x ≡ fine
IsBarely false x = (x ≡ fine) ⊎ (x ≡ doubted 1)

IsBarely-false : (b : Bool) (x : Status) → IsBarely b x → IsBarely false x
IsBarely-false true x barely = inl barely
IsBarely-false false x barely = barely

pass_clears : (p : Policy) (x : Status) → IsBarely false x → settled (advance p passed x) ≡ fine
unfolding advance
pass_clears p x barely = ground (arith, barely)

fine-IsBarely : (b : Bool) → IsBarely b fine
fine-IsBarely true = refl
fine-IsBarely false = inl refl

forecast-spaced :
    (p : Policy) (l3 b : Bool) (events : List Event) (x : Status)
    → is_spaced b events ≡ true
    → IsBarely b x
    → IsBarely false (forecast p passed failed (counted l3 passed) events x)
unfolding advance
forecast-spaced p l3 b [] x spaced barely = IsBarely-false b x barely
forecast-spaced p l3 b (shutdown_changed true ∷ events) x spaced barely = IsBarely-false b x barely
forecast-spaced p l3 b (shutdown_changed false ∷ events) x spaced barely =
    forecast-spaced p l3 b events x spaced barely
forecast-spaced p l3 b (l1_tick ∷ events) x spaced barely =
    forecast-spaced p l3 true events _ spaced (pass_clears p x (IsBarely-false b x barely))
forecast-spaced p l3 true (l2_tick ∷ events) x spaced barely =
    forecast-spaced p l3 false events _ spaced (inr (ap (λ y. settled (advance p failed y)) barely))
forecast-spaced p l3 false (l2_tick ∷ events) x spaced barely = ground (arith, spaced)
forecast-spaced p true b (l3_tick ∷ events) x spaced barely =
    forecast-spaced p true b events _ spaced
      (rw (pass_clears p x (IsBarely-false b x barely)) (fine-IsBarely b))
forecast-spaced p false b (l3_tick ∷ events) x spaced barely =
    forecast-spaced p false b events x spaced barely

is_fine : (x : Status) → state_in x ≡ healthy → x ≡ fine
is_fine x e = ground arith

state_in-after_failures :
    (threshold n : ℕ)
    → state_in (after_failures threshold n) ≡ (
        if leb n 0
        then healthy
        else if ltb n 2
        then suspected
        else if ltb n threshold
        then suspected
        else isolated)
state_in-after_failures threshold n = ground arith

module _ {W : Type 0} (s : DetectionScheduler W)
    (executes : (done : StateTransition) (w : W)
      → is_ok (s.isolation_executor.execute done w).0 ≡ true) where
  -- The state after a run of a device that is healthy at its start.
  state_of-run :
      (d : DeviceId) (k1 k2 : Kind) (k3 : Option Kind) (events : List Event) (st : State W)
      → Reports (Passive.detect_all s.l1_detector) d k1
      → Reports (Active.detect_all s.l2_detector) d k2
      → L3Reports s d k3
      → IsValid st.manager
      → state_of st.manager d ≡ healthy
      → state_of (run s events st).1.manager d
        ≡ state_in (forecast (policy (thresholds st.manager)) k1 k2 k3 events fine)
  state_of-run d k1 k2 k3 events st passive active pcie valid was =
      let is = is_fine _ (sym (state_of-status st.manager d) ∙ was) in
      let final =
        run-forecast s executes d k1 k2 passive active k3 pcie (thresholds st.manager) events fine
          st ((valid, refl), is) (λ e. ground (arith, e)) in
      state_of-status _ d ∙ ap state_in final.1

  -- The drivers list the same devices in every world, this one among them and no other with its key;
  -- the checks of all devices run, and this one's never passes.
  module _ (d : DeviceId) (listed : IsListed s.l1_detector.device.list_devices d)
      (listed' : IsListed s.l2_detector.device.list_devices d)
      (runs : (x : DeviceId) (w : W)
        → is_ok (s.l2_detector.device.run_active_check x s.l2_detector.timeout w).0 ≡ true)
      (fails : (w : W) (c : CheckResult)
        → (s.l2_detector.device.run_active_check d s.l2_detector.timeout w).0 ≡ ok c
        → c.passed ≡ false)
      (events : List Event) (st : State W) (valid : IsValid st.manager)
      (was : state_of st.manager d ≡ healthy) where
    -- Where every passive check of the device shows something, and nothing fatal, its state after a run
    -- depends on the number of passes alone: healthy before the first, suspected while there are fewer
    -- than two or fewer than the failure threshold, and isolated from then on. Passive and active
    -- passes count, and those of L3 if `l3` is true: then every L3 pass has one result of the device,
    -- and it is a failure; else an L3 pass does nothing. The device is healthy in a valid manager at
    -- the start. The drivers of the passive and of the active detector list the same devices in every
    -- world, this one among them, and no other listed device has its key. Every active check runs and
    -- this device's never passes, and the executor never fails.
    pub failing_isolated :
        ((w : W) → sees_nothing s.l1_detector d w ≡ false)
        → ((w : W) → sees_fatal s.l1_detector d w ≡ false)
        → (l3 : Bool) → L3Reports s d (counted l3 failed)
        → state_of (run s events st).1.manager d ≡ (
            if leb (passes l3 events) 0
            then healthy
            else if ltb (passes l3 events) 2
            then suspected
            else if ltb (passes l3 events) st.manager.failure_threshold
            then suspected
            else isolated)
    failing_isolated unclean harmless l3 pcie =
        let p = policy (thresholds st.manager) in
        state_of-run d failed failed (counted l3 failed) events st
          (passive-Reports s.l1_detector d false false listed unclean harmless)
          (active-Reports s.l2_detector d false listed' runs fails) pcie valid was
        ∙ ap state_in
            (forecast-steady p failed (after_failures p.failure) (next_failure p) l3 events)
        ∙ state_in-after_failures p.failure (passes l3 events)

    -- Where no passive check of the device shows anything, and two active passes never follow each
    -- other without a passive one between them, the device is healthy or suspected after every run,
    -- however often its active check has failed. The device is healthy in a valid manager at the start.
    -- The drivers of the passive and of the active detector list the same devices in every world, this
    -- one among them, and no other listed device has its key. Every active check runs and this device's
    -- never passes, and the executor never fails. If `l3` is true, every L3 pass has one result of the
    -- device, and it is a pass; else an L3 pass does nothing.
    pub active_failures_forgotten :
        ((w : W) → sees_nothing s.l1_detector d w ≡ true)
        → (l3 : Bool) → L3Reports s d (counted l3 passed)
        → is_spaced true events ≡ true
        → let final = (run s events st).1.manager in
          (state_of final d ≡ healthy) ⊎ (state_of final d ≡ suspected)
    active_failures_forgotten clean l3 pcie spaced =
        let after =
          state_of-run d passed failed (counted l3 passed) events st
            (passive-Reports s.l1_detector d true false listed clean
              (λ w. clean_harmless s.l1_detector d w (clean w)))
            (active-Reports s.l2_detector d false listed' runs fails) pcie valid was in
        elim (forecast-spaced (policy (thresholds st.manager)) l3 true events fine spaced refl) [
          | inl e ↦ inl (after ∙ ap state_in e)
          | inr e ↦ inr (after ∙ ap state_in e)
        ]
