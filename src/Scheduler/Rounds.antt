-- ===== src/Scheduler/Rounds.antt =====
-- What a pass makes of the status of one device, where the executor does not fail: the automaton of
-- Health.Status, in which a condemned device is isolated at once.
use gpu_dead_node_detector.Health
use gpu_dead_node_detector.Scheduler.Outcome.{manager-process_result, manager-process_result_cases}
use gpu_dead_node_detector.Health.Status.{
  Status, condemned, cut_off, completed, state_in, status_of, advance, policy, kind_of,
  status_of-transition, Kind, status_of-get,
}
use gpu_dead_node_detector.Health.{
  unhealthy, isolation_completed, Thresholds, GpuHealthManager, Clock, StateTransition, HealthEvent,
  thresholds, transition, event_of,
}
use gpu_dead_node_detector.Scheduler.{
  process_result, DetectionScheduler, State, handle_all, Run, outside,
}
use gpu_dead_node_detector.Common.{
  inl, inr, true, ◌≡◌, ◌≢◌, arith, is_ok, eq_refl, ◌∙◌, ap, sym, Effect, List, ok, ◌++◌, ◌>>=◌, ◌∷◌,
  with_error,
}
use gpu_dead_node_detector.Health.Diagram.{state_of}
use gpu_dead_node_detector.Device.{DeviceId, DeviceError, from_device}
use gpu_dead_node_detector.Health.Invariant.{IsValid, transition-IsValid}
use gpu_dead_node_detector.Detection.{DetectionResult}
use gpu_dead_node_detector.Scheduler.Isolation.{falls-cases, only_recorded}
use gpu_dead_node_detector.Scheduler.Outcome.{manager-process_result}
use gpu_dead_node_detector.Health.Traces.{Occurrence, thresholds-transition}
use gpu_dead_node_detector.Scheduler.Condemned.{Others, handle_all_lem}
use gpu_dead_node_detector.Scheduler.Keeps.{handle_all_keeps}

-- The state of a device is that of its status.
pub state_of-status :
    (m : GpuHealthManager) (d : DeviceId) → state_of m d ≡ state_in (status_of m d)
unfolding state_of status_of
state_of-status m d = ground arith

pub is_condemned : (x : Status) → state_in x ≡ unhealthy → x ≡ condemned
is_condemned x e = ground arith

-- What is condemned is isolated.
abbrev pub settled : Status → Status
settled condemned = cut_off 0
settled x = x

pub settled_id : (x : Status) → state_in x ≢ unhealthy → settled x ≡ x
settled_id x e = ground arith

-- A valid manager with these thresholds.
abbrev pub IsUnder : Thresholds → GpuHealthManager → Type 0
IsUnder t m = IsValid m × (thresholds m ≡ t)

-- One in which the device has this status.
abbrev pub IsAt : Thresholds → DeviceId → Status → GpuHealthManager → Type 0
IsAt t d x m = IsUnder t m × (status_of m d ≡ x)

IsUnder-transition :
    (t : Thresholds) (m : GpuHealthManager) (c : Clock) (d : DeviceId) (e : HealthEvent)
    → IsUnder t m
    → IsUnder t (transition m c d e).0
IsUnder-transition t m c d e (v, under) =
    let o : Occurrence = record { clock = c; device = d; event = e } in
    (transition-IsValid m c d e v, thresholds-transition m o ∙ under)

-- Every answer of a detector has one result of the device, and the event of that result is of this
-- kind.
abbrev pub Reports :
    {W : Type 0} → Effect W DeviceError (List DetectionResult) → DeviceId → Kind → Type 0
Reports {W} detects d k =
    (w : W)
    → (before after : List DetectionResult) × (r : DetectionResult) × ((detects w).0
        ≡ ok (before ++ r ∷ after))
      × Others d before
      × Others d after
      × (r.device ≡ d)
      × (kind_of (event_of r) ≡ k)

-- The policy and the status after a transition for a device.
pub own_event :
    (m : GpuHealthManager) (c : Clock) (d : DeviceId) (e : HealthEvent)
    → IsValid m
    → status_of (transition m c d e).0 d
      ≡ advance (policy (thresholds m)) (kind_of e) (status_of m d)
own_event m c d e v = rw eq_refl at (status_of-transition m c d d e v)

module _ {W : Type 0} (s : DetectionScheduler W) where
  pub process_result-IsUnder :
      (t : Thresholds) (r : DetectionResult) (st : State W)
      → IsUnder t st.manager
      → IsUnder t (process_result s r st).1.manager
  unfolding Health.process_result
  process_result-IsUnder t r st under =
      let judged = IsUnder-transition t st.manager (s.clock st.world) r.device (event_of r) under in
      elim (manager-process_result_cases s r st) [
        | inl e ↦ rw e judged
        | inr (c, e) ↦ rw e (IsUnder-transition t _ c r.device isolation_completed judged)
      ]

module _ {W : Type 0} (s : DetectionScheduler W)
    (executes : (done : StateTransition) (w : W)
      → is_ok (s.isolation_executor.execute done w).0 ≡ true) where
  -- Handling a result of a device that is not condemned.
  status_of-process_result :
      (r : DetectionResult) (st : State W) (x : Status)
      → IsValid st.manager
      → status_of st.manager r.device ≡ x
      → state_in x ≢ unhealthy
      → status_of (process_result s r st).1.manager r.device
        ≡ settled (advance (policy (thresholds st.manager)) (kind_of (event_of r)) x)
  unfolding Health.process_result advance
  status_of-process_result r st x v is calm =
      let m = st.manager in
      let c = s.clock st.world in
      let n = (transition m c r.device (event_of r)).0 in
      let next = own_event m c r.device (event_of r) v ∙ ap (advance _ _) is in
      elim (falls-cases (state_of m r.device) (state_of n r.device)) [
        | inl (was, falls) ↦
            let (c', e) = manager-process_result s r st was falls (executes _ _) in
            let down = is_condemned _ (sym (state_of-status n r.device) ∙ falls) in
            ap (λ m. status_of m r.device) e
            ∙ own_event n c' r.device isolation_completed
                (transition-IsValid m c r.device (event_of r) v)
            ∙ ap (advance (policy (thresholds n)) completed) down
            ∙ ap settled (sym down ∙ next)
        | inr (inl bad) ↦
            absurd (calm (ap state_in (sym is) ∙ sym (state_of-status m r.device) ∙ bad))
        | inr (inr up) ↦
            let recorded = (only_recorded s r st (inr up)).1 in
            ap (λ m. status_of m r.device) recorded
            ∙ next
            ∙ sym (settled_id _ (λ e. up (state_of-status n r.device ∙ ap state_in next ∙ e)))
      ]

  -- A pass in which one result is about a device that is not condemned.
  handle_all-IsAt :
      (t : Thresholds) (x : Status) (before after : List DetectionResult) (r : DetectionResult)
      (st : State W)
      → IsAt t r.device x st.manager
      → state_in x ≢ unhealthy
      → Others r.device before
      → Others r.device after
      → let (answer, final) = handle_all s (before ++ r ∷ after) st in
        (answer ≡ ok tt)
        × IsAt t r.device (settled (advance (policy t) (kind_of (event_of r)) x)) final.manager
  handle_all-IsAt t x before after r st (under, is) calm others others' =
      let d = r.device in
      let (answer, same, final) = handle_all_lem s executes d before after r st others others' in
      let keep = handle_all_keeps s (λ m w. IsUnder t m) (process_result-IsUnder s t) in
      let reached = (handle_all s before st).1 in
      let (v, there) = keep before st under in
      let here = status_of-get st.manager reached.manager d same ∙ is in
      (
        answer,
        (
          keep (before ++ r ∷ after) st under,
          status_of-get _ _ d final
              ∙ status_of-process_result r reached x v here calm
              ∙ ap (λ t. settled (advance (policy t) (kind_of (event_of r)) x)) there,
        ),
      )

  -- A pass over the results of a detector.
  abbrev pub sweep : Effect W DeviceError (List DetectionResult) → Run W (Unit {0})
  sweep detects = do results ← outside (with_error from_device detects); handle_all s results

  pub sweep-IsAt :
      (t : Thresholds) (d : DeviceId) (x : Status) (k : Kind)
      (detects : Effect W DeviceError (List DetectionResult)) (st : State W)
      → Reports detects d k
      → state_in x ≢ unhealthy
      → IsAt t d x st.manager
      → let (answer, final) = sweep detects st in
        (answer ≡ ok tt) × IsAt t d (settled (advance (policy t) k x)) final.manager
  sweep-IsAt t d x k detects st reports calm at =
      let (before, after, r, found, others, others', same, kind) = reports st.world in
      let asked = record st { world = (detects st.world).1 } in
      rw (found, ← same, ← kind)
        (handle_all-IsAt t x before after r asked (rw same at) calm (rw same others)
          (rw same others'))
