-- ===== src/Scheduler/Isolation.antt =====
-- One detection result: what becomes of its device, and when the executor runs.
use gpu_dead_node_detector.Health
use gpu_dead_node_detector.Health.{
  healthy, suspected, unhealthy, isolated, state_eq, StateTransition, HealthState, GpuHealthManager,
  Clock, transition, isolation_completed,
}
use gpu_dead_node_detector.Health.Checks.{
  state_of-process_result_unhealthy, state_of-process_result_isolated,
  state_of-process_result_fatal,
}
use gpu_dead_node_detector.Health.Diagram.{state_of, transition_report, state_of-completion}
use gpu_dead_node_detector.Scheduler.{
  State, DetectionScheduler, process_result, judge, isolate, complete, attempt_healing,
}
use gpu_dead_node_detector.Common.{
  Bool, ◌&&◌, not, refl, ◌≡◌, Result, ◌≢◌, arith, result_cases, ◌⊎◌, ok, false, true, ◌∙◌, ap, inl,
  inr, is_ok, Result-cases,
}
use gpu_dead_node_detector.Detection.{DetectionResult, has_fatal_finding}
use gpu_dead_node_detector.Device.{Error, DeviceId}

-- A report that asks for isolation.
abbrev asks : StateTransition → Bool
asks done = done.changed && state_eq done.to unhealthy

abbrev falls : HealthState → HealthState → Bool
falls before after = not (state_eq before unhealthy) && state_eq after unhealthy

asks_of_report :
    (done : StateTransition) (before after : HealthState)
    → done.to ≡ after
    → done.changed ≡ not (state_eq before after)
    → asks done ≡ falls before after
unfolding state_eq
asks_of_report done before after to changed = ground arith

no_fall :
    (before after : HealthState)
    → (before ≡ unhealthy) ⊎ (after ≢ unhealthy)
    → falls before after ≡ false
unfolding state_eq
no_fall before after h = ground arith

pub a_fall :
    (before after : HealthState)
    → before ≢ unhealthy
    → after ≡ unhealthy
    → falls before after ≡ true
unfolding state_eq
a_fall before after was is = ground arith

pub manager-attempt_healing :
    {W : Type 0} (s : DetectionScheduler W) (d : DeviceId) (st : State W)
    → (attempt_healing s d st).manager ≡ st.manager
unfolding attempt_healing
manager-attempt_healing s d st = ground arith

-- Either the device becomes unhealthy or its result is only recorded.
pub falls-cases :
    (before after : HealthState)
    → ((before ≢ unhealthy) × (after ≡ unhealthy)) ⊎ ((before ≡ unhealthy) ⊎ (after ≢ unhealthy))
falls-cases unhealthy after = inr (inl refl)
falls-cases healthy unhealthy = inl (ground arith, refl)
falls-cases suspected unhealthy = inl (ground arith, refl)
falls-cases isolated unhealthy = inl (ground arith, refl)
falls-cases _ healthy = inr (inr (ground arith))
falls-cases _ suspected = inr (inr (ground arith))
falls-cases _ isolated = inr (inr (ground arith))

isolate_lem :
    {W : Type 0} (s : DetectionScheduler W) (d : DeviceId) (done : StateTransition) (st : State W)
    → state_of st.manager d ≡ unhealthy
    → let executed = (s.isolation_executor.execute done (attempt_healing s d st).world).0 in
      ((isolate s d done st).0 ≡ executed)
      × (state_of (isolate s d done st).1.manager d
          ≡ result_cases (λ done. isolated) (λ e. unhealthy) executed)
unfolding isolate complete
isolate_lem s d done st is =
    let st' = attempt_healing s d st in
    let m = manager-attempt_healing s d st in
    let now = s.clock (s.isolation_executor.execute done st'.world).1 in
    ground (arith, m, is, state_of-completion st'.manager now d)

module _ {W : Type 0} (s : DetectionScheduler W) (r : DetectionResult) (st : State W) where
  -- The manager when the result has been judged, with the report.
  abbrev pub judged : GpuHealthManager
  judged = (Health.process_result st.manager (s.clock st.world) r).0

  abbrev pub report : StateTransition
  report = (Health.process_result st.manager (s.clock st.world) r).1

  abbrev pub before : HealthState
  before = state_of st.manager r.device

  abbrev pub now : HealthState
  now = state_of judged r.device

  -- The executor's answer, after healing.
  abbrev pub executed : Result Error (Unit {0})
  executed =
      (s.isolation_executor.execute report (attempt_healing s r.device (judge s r st).1).world).0

  asked : asks report ≡ falls before now
  unfolding Health.process_result
  asked =
      let t = transition_report st.manager (s.clock st.world) r.device (Health.event_of r) in
      asks_of_report report before now t.1 t.2

  abbrev pub final : State W
  final = (process_result s r st).1

  pub isolate_when_falls :
      falls before now ≡ true → process_result s r st ≡ isolate s r.device report (judge s r st).1
  unfolding process_result judge
  isolate_when_falls e = rw (asked ∙ e)

  record_when_not_falls :
      falls before now ≡ false → process_result s r st ≡ (ok tt, (judge s r st).1)
  unfolding process_result judge
  record_when_not_falls e = rw (asked ∙ e)

  -- A device that becomes unhealthy is isolated if the executor succeeds, whatever healing does;
  -- if it fails, its error is returned and the device stays unhealthy.
  pub newly_unhealthy_isolated :
      before ≢ unhealthy
      → now ≡ unhealthy
      → ((process_result s r st).0 ≡ executed)
        × (state_of final.manager r.device
            ≡ result_cases (λ done. isolated) (λ e. unhealthy) executed)
  newly_unhealthy_isolated was is =
      let e = isolate_when_falls (a_fall before now was is) in
      let l = isolate_lem s r.device report (judge s r st).1 (unfold judge in is) in
      (ap (λ p. p.0) e ∙ l.0, ap (λ p. state_of p.1.manager r.device) e ∙ l.1)

  -- Otherwise the result is only recorded: no healing, no action, no change of the world.
  pub only_recorded :
      (before ≡ unhealthy) ⊎ (now ≢ unhealthy)
      → ((process_result s r st).0 ≡ ok tt) × (final.manager ≡ judged) × (final.world ≡ st.world)
  unfolding judge
  only_recorded h =
      let e = record_when_not_falls (no_fall before now h) in
      (ap (λ p. p.0) e, ap (λ p. p.1.manager) e, ap (λ p. p.1.world) e)

  -- A device that is unhealthy when a result comes in stays unhealthy, and the executor is not asked
  -- again: an isolation that has failed is never tried a second time.
  pub never_retried :
      before ≡ unhealthy
      → ((process_result s r st).0 ≡ ok tt)
        × (state_of final.manager r.device ≡ unhealthy)
        × (final.world ≡ st.world)
  never_retried e =
      let (answer, manager, world) = only_recorded (inl e) in
      let still = state_of-process_result_unhealthy st.manager (s.clock st.world) r e in
      (answer, ap (λ m. state_of m r.device) manager ∙ still, world)

  -- A result of an isolated device never reaches the executor, even where it restores the device to
  -- healthy: the recovery actions of that transition are dropped.
  pub isolated_left_alone :
      before ≡ isolated
      → ((process_result s r st).0 ≡ ok tt)
        × (state_of final.manager r.device ≡ now)
        × (now ≢ unhealthy)
        × (final.world ≡ st.world)
  isolated_left_alone e =
      let not_condemned = state_of-process_result_isolated st.manager (s.clock st.world) r e in
      let (answer, manager, world) = only_recorded (inr not_condemned) in
      (answer, ap (λ m. state_of m r.device) manager, not_condemned, world)

  -- A failed result with a fatal finding isolates a device that is healthy or suspected, if the
  -- executor succeeds: whatever healing does, and in this one step.
  pub fatal_result_isolated :
      r.passed ≡ false
      → has_fatal_finding r ≡ true
      → (before ≡ healthy) ⊎ (before ≡ suspected)
      → is_ok executed ≡ true
      → ((process_result s r st).0 ≡ ok tt) × (state_of final.manager r.device ≡ isolated)
  fatal_result_isolated failed is_fatal e done =
      let condemned =
        state_of-process_result_fatal st.manager (s.clock st.world) r failed is_fatal e in
      let (answer, state) = newly_unhealthy_isolated (ground arith) condemned in
      elim (Result-cases executed) [
        | inl (a, ok_a) ↦ (answer ∙ ok_a, rw (state, ok_a))
        | inr (x, err_x) ↦ ground (arith, done, err_x)
      ]
