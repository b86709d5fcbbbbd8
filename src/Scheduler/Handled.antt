-- ===== src/Scheduler/Handled.antt =====
-- What one result makes of the statuses of all devices, with any executor.
use gpu_dead_node_detector.Health
use gpu_dead_node_detector.Common.{
  inl, inr, true, false, ok, [], ◌∷◌, Bool, List, ◌≢◌, ◌≡◌, str_eq, if◌then◌else◌, arith, ◌⊎◌,
  Bool-cases, sym, ◌∙◌, ap, is_ok, Result,
}
use gpu_dead_node_detector.Health.Status.{
  Status, condemned, Kind, Policy, advance, completed, state_in, status_of, kind_of, policy,
  status_of-transition, status_of_key,
}
use gpu_dead_node_detector.Scheduler.Rounds.{settled, own_event, state_of-status, is_condemned}
use gpu_dead_node_detector.Detection.{DetectionResult}
use gpu_dead_node_detector.Device.{DeviceId, Error}
use gpu_dead_node_detector.Health.{
  GpuHealthManager, device_key, transition, event_of, thresholds, Clock, unhealthy, HealthEvent,
  StateTransition, isolation_completed,
}
use gpu_dead_node_detector.Scheduler.{
  process_result, judge, attempt_healing, DetectionScheduler, State,
}
use gpu_dead_node_detector.Health.Invariant.{IsValid, transition-IsValid}
use gpu_dead_node_detector.Scheduler.Isolation.{
  report, judged, before, now, only_recorded, executed, falls-cases, newly_unhealthy_isolated,
}
use gpu_dead_node_detector.Health.Diagram.{state_of}
use gpu_dead_node_detector.Scheduler.Outcome.{manager-process_result, manager-process_result_failed}

-- A result of a device, where the isolation of what it condemns succeeds; a device that is condemned
-- already is not isolated.
abbrev pub take : Policy → Kind → Status → Status
take p k condemned = advance p k condemned
take p k x = settled (advance p k x)

abbrev pub is_about : DetectionResult → DeviceId → Bool
is_about r d = str_eq (device_key r.device) (device_key d)

-- What the results of a pass make of the status of one device.
abbrev pub take_all : Policy → DeviceId → List DetectionResult → Status → Status
take_all p d [] x = x
take_all p d (r ∷ results) x =
    take_all p d results (if is_about r d then take p (kind_of (event_of r)) x else x)

take_calm :
    (p : Policy) (k : Kind) (x : Status)
    → state_in x ≢ unhealthy
    → take p k x ≡ settled (advance p k x)
take_calm p k x calm = ground (arith, calm)

take_stays :
    (p : Policy) (k : Kind) (x : Status)
    → (state_in x ≡ unhealthy) ⊎ (state_in (advance p k x) ≢ unhealthy)
    → take p k x ≡ advance p k x
take_stays p k x h = ground (arith, h)

ok_of : (a : Result Error (Unit {0})) → is_ok a ≡ true → a ≡ ok tt
ok_of a h = ground arith

-- The statuses of all devices, from that of one and those of the devices with another key.
module _ (m n : GpuHealthManager) (r : DetectionResult) (f : Status → Status) where
  status_of_all :
      status_of n r.device ≡ f (status_of m r.device)
      → ((d : DeviceId) → is_about r d ≡ false → status_of n d ≡ status_of m d)
      → (d : DeviceId) → status_of n d ≡ (if is_about r d then f (status_of m d) else status_of m d)
  status_of_all here elsewhere d = elim (Bool-cases (is_about r d)) [
    | inl same ↦
        rw same
          (sym (status_of_key n r.device d same) ∙ here ∙ ap f (status_of_key m r.device d same))
    | inr differ ↦ rw differ (elsewhere d differ)
  ]

other_event :
    (m : GpuHealthManager) (c : Clock) (r : DetectionResult) (e : HealthEvent) (d : DeviceId)
    → IsValid m
    → is_about r d ≡ false
    → status_of (transition m c r.device e).0 d ≡ status_of m d
other_event m c r e d v differ = rw differ at (status_of-transition m c r.device d e v)

module _ {W : Type 0} (s : DetectionScheduler W) (r : DetectionResult) (st : State W)
    (v : IsValid st.manager) where
  abbrev p : Policy
  p = policy (thresholds st.manager)

  abbrev k : Kind
  k = kind_of (event_of r)

  abbrev x : Status
  x = status_of st.manager r.device

  abbrev reached : State W
  reached = (process_result s r st).1

  judged-status : status_of (judged s r st) r.device ≡ advance p k x
  unfolding Health.process_result
  judged-status = own_event st.manager (s.clock st.world) r.device (event_of r) v

  judged-other :
      (d : DeviceId) → is_about r d ≡ false → status_of (judged s r st) d ≡ status_of st.manager d
  unfolding Health.process_result
  judged-other d = other_event st.manager (s.clock st.world) r (event_of r) d v

  judged-IsValid : IsValid (judged s r st)
  unfolding Health.process_result
  judged-IsValid = transition-IsValid st.manager (s.clock st.world) r.device (event_of r) v

  recorded :
      (before s r st ≡ unhealthy) ⊎ (now s r st ≢ unhealthy)
      → ((process_result s r st).0 ≡ ok tt)
        × ((d : DeviceId)
            → status_of reached.manager d ≡ (
                if is_about r d then take p k (status_of st.manager d) else status_of st.manager d))
  recorded h =
      let (answer, manager, world) = only_recorded s r st h in
      let was : state_of st.manager r.device ≡ state_in x = state_of-status st.manager r.device in
      let is : state_of (judged s r st) r.device ≡ state_in (advance p k x) =
        state_of-status (judged s r st) r.device ∙ ap state_in judged-status in
      (
        answer,
        status_of_all st.manager reached.manager r (take p k)
            (ap (λ m. status_of m r.device) manager
              ∙ judged-status
              ∙ sym (take_stays p k x (rw (was, is) at h)))
            (λ d differ. ap (λ m. status_of m d) manager ∙ judged-other d differ),
      )

  isolated_now :
      before s r st ≢ unhealthy
      → now s r st ≡ unhealthy
      → is_ok (executed s r st) ≡ true
      → (d : DeviceId)
      → status_of reached.manager d
        ≡ (if is_about r d then take p k (status_of st.manager d) else status_of st.manager d)
  unfolding advance
  isolated_now was is succeeds =
      let (c, e) = manager-process_result s r st was is succeeds in
      let n = judged s r st in
      let down : status_of n r.device ≡ condemned =
        is_condemned _ (sym (state_of-status n r.device) ∙ is) in
      let calm : state_in x ≢ unhealthy = λ bad. was (state_of-status st.manager r.device ∙ bad) in
      status_of_all st.manager reached.manager r (take p k)
        (ap (λ m. status_of m r.device) e
          ∙ own_event n c r.device isolation_completed judged-IsValid
          ∙ ap (advance (policy (thresholds n)) completed) down
          ∙ ap settled (sym down ∙ judged-status)
          ∙ sym (take_calm p k x calm))
        (λ d differ.
          ap (λ m. status_of m d) e
          ∙ other_event n c r isolation_completed d judged-IsValid differ
          ∙ judged-other d differ)

  left_condemned :
      before s r st ≢ unhealthy
      → now s r st ≡ unhealthy
      → is_ok (executed s r st) ≡ false
      → (d : DeviceId)
      → status_of reached.manager d ≡ (if is_about r d then condemned else status_of st.manager d)
  left_condemned was is fails =
      let e = manager-process_result_failed s r st was is fails in
      let n = judged s r st in
      status_of_all st.manager reached.manager r (λ x. condemned)
        (ap (λ m. status_of m r.device) e ∙ is_condemned _ (sym (state_of-status n r.device) ∙ is))
        (λ d differ. ap (λ m. status_of m d) e ∙ judged-other d differ)

  -- The result is handled, or the executor fails on it and its device is left condemned.
  pub process_result_statuses :
      (((process_result s r st).0 ≡ ok tt)
        × ((d : DeviceId)
            → status_of reached.manager d ≡ (
                if is_about r d
                then take p k (status_of st.manager d)
                else status_of st.manager d)))
      ⊎ ((is_ok (process_result s r st).0 ≡ false)
          × ((done : StateTransition) × (w : W) × ((s.isolation_executor.execute done w).0
                ≡ (process_result s r st).0))
          × (state_in x ≢ unhealthy)
          × ((d : DeviceId)
              → status_of reached.manager d
                ≡ (if is_about r d then condemned else status_of st.manager d)))
  process_result_statuses = elim (falls-cases (before s r st) (now s r st)) [
    | inr stays ↦ inl (recorded stays)
    | inl (was, is) ↦
        let (answer, state) = newly_unhealthy_isolated s r st was is in
        elim (Bool-cases (is_ok (executed s r st))) [
          | inl succeeds ↦ inl (answer ∙ ok_of _ succeeds, isolated_now was is succeeds)
          | inr fails ↦ inr (
            ap is_ok answer ∙ fails,
            (report s r st, (attempt_healing s r.device (judge s r st).1).world, sym answer),
            λ bad. was (state_of-status st.manager r.device ∙ bad),
            left_condemned was is fails,
          )
        ]
  ]
