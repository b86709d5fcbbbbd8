-- ===== src/Scheduler/Forecast.antt =====
-- What the loop makes of a device whose passive results are always of one kind and whose active
-- results are always of one kind, where the executor does not fail; the L3 passes do nothing, or their
-- results are always of one kind too.
use gpu_dead_node_detector.Common.{
  ◌∷◌, [], true, false, ap, refl, ℕ, ◌+◌, ◌∙◌, Option, Bool, ◌≤◌, some, is_none, Bool-cases, ok,
  inl, inr,
}
use gpu_dead_node_detector.Scheduler.{
  run_l2_detection, run_l1_detection, run, on_event, l1_tick, l2_tick, l3_tick, shutdown_changed,
  DetectionScheduler, Event, run, on_event, run_l1_detection, run_l2_detection, State,
  run_l3_detection, handle_all,
}
use gpu_dead_node_detector.Health.Status.{
  fine, condemned, doubted, cut_off, Policy, Status, Kind, state_in, advance, policy,
}
use gpu_dead_node_detector.Detection.Passive
use gpu_dead_node_detector.Detection.Active
use gpu_dead_node_detector.Detection.Pcie
use gpu_dead_node_detector.Detection.Pcie.{L3PcieDetector, is_supported}
use gpu_dead_node_detector.Health.{StateTransition, unhealthy, Thresholds}
use gpu_dead_node_detector.Common.{List, is_ok, ◌≢◌, ◌≡◌, true, arith, [], none}
use gpu_dead_node_detector.Scheduler.Rounds.{settled, Reports, IsAt, sweep-IsAt}
use gpu_dead_node_detector.Device.{DeviceId}

-- What an L3 pass leaves, where it does nothing or its results are of this kind.
abbrev pub later : Policy → Option Kind → Status → Status
later p none x = x
later p (some k) x = settled (advance p k x)

-- The status after the events.
abbrev pub forecast : Policy → Kind → Kind → Option Kind → List Event → Status → Status
forecast p k1 k2 k3 [] x = x
forecast p k1 k2 k3 (shutdown_changed true ∷ events) x = x
forecast p k1 k2 k3 (shutdown_changed false ∷ events) x = forecast p k1 k2 k3 events x
forecast p k1 k2 k3 (l1_tick ∷ events) x = forecast p k1 k2 k3 events (settled (advance p k1 x))
forecast p k1 k2 k3 (l2_tick ∷ events) x = forecast p k1 k2 k3 events (settled (advance p k2 x))
forecast p k1 k2 k3 (l3_tick ∷ events) x = forecast p k1 k2 k3 events (later p k3 x)

-- The passes of the loop; `l3` says whether those of L3 count.
abbrev pub passes : Bool → List Event → ℕ
passes l3 [] = 0
passes l3 (shutdown_changed true ∷ events) = 0
passes l3 (shutdown_changed false ∷ events) = passes l3 events
passes l3 (l1_tick ∷ events) = passes l3 events + 1
passes l3 (l2_tick ∷ events) = passes l3 events + 1
passes true (l3_tick ∷ events) = passes true events + 1
passes false (l3_tick ∷ events) = passes false events

-- Counting the passes of L3 counts no fewer.
pub passes_more : (l3 : Bool) (events : List Event) → passes false events ≤ passes l3 events
passes_more l3 [] = omega arith
passes_more l3 (shutdown_changed true ∷ events) = omega arith
passes_more l3 (shutdown_changed false ∷ events) = passes_more l3 events
passes_more l3 (l1_tick ∷ events) = omega (arith, passes_more l3 events)
passes_more l3 (l2_tick ∷ events) = omega (arith, passes_more l3 events)
passes_more true (l3_tick ∷ events) = omega (arith, passes_more true events)
passes_more false (l3_tick ∷ events) = passes_more false events

-- The kind of the results of L3, where its passes count.
abbrev pub counted : Bool → Kind → Option Kind
counted true k = some k
counted false k = none

plus_zero : (n : ℕ) → n ≡ n + 0
plus_zero n = omega arith

zero_plus : (n : ℕ) → 0 + n ≡ n
zero_plus n = omega arith

plus_suc : (n k : ℕ) → n + 1 + k ≡ n + (k + 1)
plus_suc n k = omega arith

-- Where all passes give results of one kind, which leads through these statuses in turn.
module _ (p : Policy) (k : Kind) (f : ℕ → Status)
    (next : (n : ℕ) → settled (advance p k (f n)) ≡ f (n + 1)) where
  one_more :
      (k3 : Option Kind) (events : List Event) (n m : ℕ)
      → forecast p k k k3 events (f (n + 1)) ≡ f (n + 1 + m)
      → forecast p k k k3 events (settled (advance p k (f n))) ≡ f (n + (m + 1))
  one_more k3 events n m rest = ap (forecast p k k k3 events) (next n) ∙ rest ∙ ap f (plus_suc n m)

  forecast_from :
      (l3 : Bool) (events : List Event) (n : ℕ)
      → forecast p k k (counted l3 k) events (f n) ≡ f (n + passes l3 events)
  forecast_from l3 [] n = ap f (plus_zero n)
  forecast_from l3 (shutdown_changed true ∷ events) n = ap f (plus_zero n)
  forecast_from l3 (shutdown_changed false ∷ events) n = forecast_from l3 events n
  forecast_from l3 (l1_tick ∷ events) n =
      one_more (counted l3 k) events n (passes l3 events) (forecast_from l3 events (n + 1))
  forecast_from l3 (l2_tick ∷ events) n =
      one_more (counted l3 k) events n (passes l3 events) (forecast_from l3 events (n + 1))
  forecast_from true (l3_tick ∷ events) n =
      one_more (some k) events n (passes true events) (forecast_from true events (n + 1))
  forecast_from false (l3_tick ∷ events) n = forecast_from false events n

  pub forecast-steady :
      (l3 : Bool) (events : List Event)
      → forecast p k k (counted l3 k) events (f 0) ≡ f (passes l3 events)
  forecast-steady l3 events = forecast_from l3 events 0 ∙ ap f (zero_plus (passes l3 events))

settled_calm : (x : Status) → state_in (settled x) ≢ unhealthy
settled_calm fine = λ e. ground (arith, e)
settled_calm condemned = λ e. ground (arith, e)
settled_calm (doubted n) = λ e. ground (arith, e)
settled_calm (cut_off n) = λ e. ground (arith, e)

later_calm :
    (p : Policy) (k : Option Kind) (x : Status)
    → state_in x ≢ unhealthy
    → state_in (later p k x) ≢ unhealthy
later_calm p none x calm = calm
later_calm p (some k) x calm = settled_calm (advance p k x)

module _ {W : Type 0} (s : DetectionScheduler W) where
  -- The third branch of the loop does nothing, or the results of its detector are of this kind.
  abbrev pub L3Reports : DeviceId → Option Kind → Type 0
  L3Reports d none = (st : State W) → on_event s l3_tick st ≡ st
  L3Reports d (some k) =
      (is_none s.l3_interval ≡ false)
      × (det : L3PcieDetector W) × (s.l3_detector ≡ some det)
      × Reports (Pcie.detect_all det) d k

  pub without_interval : (d : DeviceId) → s.l3_interval ≡ none → L3Reports d none
  unfolding on_event
  without_interval d off st = simp (off) refl

  module _ (det : L3PcieDetector W) (has : s.l3_detector ≡ some det)
      (no_test : det.device.supports_pcie_test ≡ false)
      (skips : det.config.skip_if_unsupported ≡ true) where
    nothing_found : (w : W) → Pcie.detect_all det w ≡ (ok [], w)
    unfolding Pcie.detect_all is_supported
    nothing_found w = ground (arith, no_test, skips)

    run_l3_detection_idle : (st : State W) → (run_l3_detection s st).1 ≡ st
    unfolding run_l3_detection handle_all
    run_l3_detection_idle st = rw has (rw (nothing_found st.world) refl)

    pub without_test : (d : DeviceId) → L3Reports d none
    unfolding on_event
    without_test d st = elim (Bool-cases (is_none s.l3_interval)) [
      | inl off ↦ rw off refl
      | inr on ↦ rw on (run_l3_detection_idle st)
    ]

module _ {W : Type 0} (s : DetectionScheduler W)
    (executes : (done : StateTransition) (w : W)
      → is_ok (s.isolation_executor.execute done w).0 ≡ true)
    (d : DeviceId) (k1 k2 : Kind) (passive : Reports (Passive.detect_all s.l1_detector) d k1)
    (active : Reports (Active.detect_all s.l2_detector) d k2) where
  later-IsAt :
      (k3 : Option Kind)
      → L3Reports s d k3
      → (t : Thresholds) (x : Status) (st : State W) → IsAt t d x st.manager
      → state_in x ≢ unhealthy
      → IsAt t d (later (policy t) k3 x) (on_event s l3_tick st).manager
  unfolding on_event run_l3_detection
  later-IsAt none ignored t x st at calm = rw (ignored st) at
  later-IsAt (some k) (ticks, det, has, reports) t x st at calm =
      rw (ticks, has) (sweep-IsAt s executes t d x k (Pcie.detect_all det) st reports calm at).1

  -- The loop takes the device from a status that is not unhealthy to the one that the forecast says.
  pub run-forecast :
      (k3 : Option Kind)
      → L3Reports s d k3
      → (t : Thresholds) (events : List Event) (x : Status) (st : State W) → IsAt t d x st.manager
      → state_in x ≢ unhealthy
      → IsAt t d (forecast (policy t) k1 k2 k3 events x) (run s events st).1.manager
  unfolding run on_event run_l1_detection run_l2_detection
  run-forecast k3 pcie t [] x st at calm = at
  run-forecast k3 pcie t (shutdown_changed true ∷ events) x st at calm = at
  run-forecast k3 pcie t (shutdown_changed false ∷ events) x st at calm =
      run-forecast k3 pcie t events x st at calm
  run-forecast k3 pcie t (l1_tick ∷ events) x st at calm =
      let next =
        sweep-IsAt s executes t d x k1 (Passive.detect_all s.l1_detector) st passive calm at in
      run-forecast k3 pcie t events (settled (advance (policy t) k1 x)) (on_event s l1_tick st)
        next.1 (settled_calm (advance (policy t) k1 x))
  run-forecast k3 pcie t (l2_tick ∷ events) x st at calm =
      let next =
        sweep-IsAt s executes t d x k2 (Active.detect_all s.l2_detector) st active calm at in
      run-forecast k3 pcie t events (settled (advance (policy t) k2 x)) (on_event s l2_tick st)
        next.1 (settled_calm (advance (policy t) k2 x))
  run-forecast k3 pcie t (l3_tick ∷ events) x st at calm =
      run-forecast k3 pcie t events (later (policy t) k3 x) (on_event s l3_tick st)
        (later-IsAt k3 pcie t x st at calm) (later_calm (policy t) k3 x calm)
