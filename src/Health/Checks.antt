-- ===== src/Health/Checks.antt =====
-- What one detection result makes of a device that is unhealthy, isolated or in service.
use gpu_dead_node_detector.Health.Diagram.{
  state_of, state_of-transition, state-get_or_create, get-transition_ne, state_of_key, state_of-get,
}
use gpu_dead_node_detector.Health.{
  suspected, process_result, step, event_of, Thresholds, GpuHealthManager, Clock, HealthEvent,
  GpuHealth, unhealthy, isolated, thresholds, healthy, device_key, get, transition, get_or_create,
}
use gpu_dead_node_detector.Device.{DeviceId}
use gpu_dead_node_detector.Detection.{DetectionResult, has_fatal_finding}
use gpu_dead_node_detector.Common.{
  ◌≡◌, false, arith, ◌∙◌, ◌≢◌, true, ◌⊎◌, some, lookup-insert, eq_refl, Bool-cases, str_eq, inl,
  eq_iff, sym, inr,
}

-- A device that is unhealthy already stays so at every check.
step_unhealthy :
    (t : Thresholds) (d : DeviceId) (clock : Clock) (r : DetectionResult) (h : GpuHealth)
    → h.state ≡ unhealthy
    → (step t d clock (event_of r) h).0.state ≡ unhealthy
unfolding step event_of
step_unhealthy t d clock r h e = ground arith

pub state_of-process_result_unhealthy :
    (m : GpuHealthManager) (clock : Clock) (r : DetectionResult)
    → state_of m r.device ≡ unhealthy
    → state_of (process_result m clock r).0 r.device ≡ unhealthy
unfolding process_result
state_of-process_result_unhealthy m clock r e =
    state_of-transition m clock r.device (event_of r)
    ∙ step_unhealthy (thresholds m) r.device clock r _
        (state-get_or_create m clock.created r.device ∙ e)

-- A check never makes an isolated device unhealthy: at most it is restored.
step_isolated :
    (t : Thresholds) (d : DeviceId) (clock : Clock) (event : HealthEvent) (h : GpuHealth)
    → h.state ≡ isolated
    → (step t d clock event h).0.state ≢ unhealthy
unfolding step
step_isolated t d clock event h e = ground arith

pub state_of-process_result_isolated :
    (m : GpuHealthManager) (clock : Clock) (r : DetectionResult)
    → state_of m r.device ≡ isolated
    → state_of (process_result m clock r).0 r.device ≢ unhealthy
unfolding process_result
state_of-process_result_isolated m clock r e =
    rw (state_of-transition m clock r.device (event_of r)) (
      step_isolated (thresholds m) r.device clock (event_of r) _
        (state-get_or_create m clock.created r.device ∙ e))

-- A fatal result condemns a device in service at once.
step_fatal :
    (t : Thresholds) (d : DeviceId) (clock : Clock) (r : DetectionResult) (h : GpuHealth)
    → r.passed ≡ false
    → has_fatal_finding r ≡ true
    → (h.state ≡ healthy) ⊎ (h.state ≡ suspected)
    → (step t d clock (event_of r) h).0.state ≡ unhealthy
unfolding step event_of
step_fatal t d clock r h failed is_fatal e = ground arith

pub state_of-process_result_fatal :
    (m : GpuHealthManager) (clock : Clock) (r : DetectionResult)
    → r.passed ≡ false
    → has_fatal_finding r ≡ true
    → (state_of m r.device ≡ healthy) ⊎ (state_of m r.device ≡ suspected)
    → state_of (process_result m clock r).0 r.device ≡ unhealthy
unfolding process_result
state_of-process_result_fatal m clock r failed is_fatal e =
    state_of-transition m clock r.device (event_of r)
    ∙ step_fatal (thresholds m) r.device clock r _ failed is_fatal
        (rw (state-get_or_create m clock.created r.device) e)

-- A result leaves the record of every device with another key as it was.
pub get-process_result_ne :
    (m : GpuHealthManager) (clock : Clock) (r : DetectionResult) (other : DeviceId)
    → device_key r.device ≢ device_key other
    → get (process_result m clock r).0 other ≡ get m other
unfolding process_result
get-process_result_ne m clock r other differ =
    get-transition_ne m clock r.device other (event_of r) differ

-- A result leaves a record of its device, in the device's state.
pub get-process_result :
    (m : GpuHealthManager) (clock : Clock) (r : DetectionResult)
    → (h : GpuHealth) × (get (process_result m clock r).0 r.device ≡ some h)
      × (h.state ≡ state_of (process_result m clock r).0 r.device)
unfolding process_result state_of get transition
get-process_result m clock r =
    let h =
      (step (thresholds m) r.device clock (event_of r)
        (get_or_create clock.created m r.device)).0 in
    (h, rw (lookup-insert, eq_refl), rw (lookup-insert, eq_refl))

-- No check isolates a device: one that is isolated after a result was so before it.
step_isolated_before :
    (t : Thresholds) (d : DeviceId) (clock : Clock) (r : DetectionResult) (h : GpuHealth)
    → (step t d clock (event_of r) h).0.state ≡ isolated
    → h.state ≡ isolated
unfolding step event_of
step_isolated_before t d clock r h e = ground arith

pub isolated_before-process_result :
    (m : GpuHealthManager) (clock : Clock) (r : DetectionResult) (d : DeviceId)
    → state_of (process_result m clock r).0 d ≡ isolated
    → state_of m d ≡ isolated
unfolding process_result
isolated_before-process_result m clock r d is =
    elim (Bool-cases (str_eq (device_key r.device) (device_key d))) [
      | inl same ↦
          let k = (eq_iff (device_key r.device) (device_key d)).0 same in
          let now = (transition m clock r.device (event_of r)).0 in
          let own : state_of m r.device ≡ isolated =
            sym (state-get_or_create m clock.created r.device)
            ∙ step_isolated_before (thresholds m) r.device clock r _ (
                sym (state_of-transition m clock r.device (event_of r))
                ∙ state_of_key now r.device d k
                ∙ is) in
          sym (state_of_key m r.device d k) ∙ own
      | inr differ ↦
          let ne : device_key r.device ≢ device_key d =
            λ k. ground (arith, differ, eq_iff (device_key r.device) (device_key d)) in
          sym (
            state_of-get m (transition m clock r.device (event_of r)).0 d
              (get-transition_ne m clock r.device d (event_of r) ne))
          ∙ is
    ]

-- A device that a result has made unhealthy, and was not so before, was in service.
pub in_service-process_result :
    (m : GpuHealthManager) (clock : Clock) (r : DetectionResult)
    → state_of m r.device ≢ unhealthy
    → state_of (process_result m clock r).0 r.device ≡ unhealthy
    → (state_of m r.device ≡ healthy) ⊎ (state_of m r.device ≡ suspected)
in_service-process_result m clock r was is =
    ground (arith, was, is, state_of-process_result_isolated m clock r)
