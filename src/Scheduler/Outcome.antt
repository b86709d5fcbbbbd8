-- ===== src/Scheduler/Outcome.antt =====
-- The manager and the world that the handling of one result leaves.
use gpu_dead_node_detector.Scheduler.Isolation.{
  judged, report, executed, before, now, final, isolate_when_falls, a_fall, only_recorded,
  falls-cases, manager-attempt_healing,
}
use gpu_dead_node_detector.Health.{
  unhealthy, StateTransition, Clock, transition, isolation_completed,
}
use gpu_dead_node_detector.Common.{
  true, false, inl, inr, ◌≡◌, ◌≢◌, ◌⊎◌, is_ok, arith, ap, ◌∙◌, Bool-cases,
}
use gpu_dead_node_detector.Scheduler.{
  DetectionScheduler, isolate, complete, State, attempt_healing, judge,
}
use gpu_dead_node_detector.Detection.{DetectionResult}
use gpu_dead_node_detector.Device.{DeviceId}

-- The manager after a successful isolation is the one that was told of its completion.
manager-isolate :
    {W : Type 0} (s : DetectionScheduler W) (d : DeviceId) (done : StateTransition) (st : State W)
    → is_ok (s.isolation_executor.execute done (attempt_healing s d st).world).0 ≡ true
    → (c : Clock) × ((isolate s d done st).1.manager
        ≡ (transition st.manager c d isolation_completed).0)
unfolding isolate complete
manager-isolate s d done st succeeds =
    let st' = attempt_healing s d st in
    (
      s.clock (s.isolation_executor.execute done st'.world).1,
      ground (arith, succeeds, manager-attempt_healing s d st),
    )

-- After a failed one it is the manager that was there before.
manager-isolate_failed :
    {W : Type 0} (s : DetectionScheduler W) (d : DeviceId) (done : StateTransition) (st : State W)
    → is_ok (s.isolation_executor.execute done (attempt_healing s d st).world).0 ≡ false
    → (isolate s d done st).1.manager ≡ st.manager
unfolding isolate
manager-isolate_failed s d done st fails = ground (arith, fails, manager-attempt_healing s d st)

world-isolate :
    {W : Type 0} (s : DetectionScheduler W) (d : DeviceId) (done : StateTransition) (st : State W)
    → (isolate s d done st).1.world
      ≡ (s.isolation_executor.execute done (attempt_healing s d st).world).1
unfolding isolate complete
world-isolate s d done st = ground arith

module _ {W : Type 0} (s : DetectionScheduler W) (r : DetectionResult) (st : State W) where
  -- The manager after a result whose device has become unhealthy and was isolated.
  pub manager-process_result :
      (before s r st) ≢ unhealthy
      → (now s r st) ≡ unhealthy
      → is_ok (executed s r st) ≡ true
      → (c : Clock) × ((final s r st).manager
          ≡ (transition (judged s r st) c r.device isolation_completed).0)
  manager-process_result was is succeeds =
      let (c, e) = manager-isolate s r.device (report s r st) (judge s r st).1 succeeds in
      (
        c,
        ap (λ p. p.1.manager)
              (isolate_when_falls s r st (a_fall (before s r st) (now s r st) was is))
            ∙ (unfold judge in e),
      )

  -- The manager where the executor has failed: the result is recorded, and no more.
  pub manager-process_result_failed :
      (before s r st) ≢ unhealthy
      → (now s r st) ≡ unhealthy
      → is_ok (executed s r st) ≡ false
      → (final s r st).manager ≡ judged s r st
  manager-process_result_failed was is fails =
      ap (λ p. p.1.manager) (isolate_when_falls s r st (a_fall (before s r st) (now s r st) was is))
      ∙ (unfold judge in manager-isolate_failed s r.device (report s r st) (judge s r st).1 fails)

  -- The world is then as the executor has left it.
  pub world-process_result :
      (before s r st) ≢ unhealthy
      → (now s r st) ≡ unhealthy
      → (final s r st).world
        ≡ (s.isolation_executor.execute
            (report s r st)
            (attempt_healing s r.device (judge s r st).1).world).1
  world-process_result was is =
      ap (λ p. p.1.world) (isolate_when_falls s r st (a_fall (before s r st) (now s r st) was is))
      ∙ world-isolate s r.device (report s r st) (judge s r st).1

  -- In every case the manager has taken the result, and at most a completed isolation after it.
  pub manager-process_result_cases :
      ((final s r st).manager ≡ (judged s r st))
      ⊎ ((c : Clock) × ((final s r st).manager
            ≡ (transition (judged s r st) c r.device isolation_completed).0))
  manager-process_result_cases = elim (falls-cases (before s r st) (now s r st)) [
    | inr stays ↦ inl (only_recorded s r st stays).1
    | inl (was, is) ↦ elim (Bool-cases (is_ok (executed s r st))) [
      | inl succeeds ↦ inr (manager-process_result was is succeeds)
      | inr fails ↦ inl (manager-process_result_failed was is fails)
    ]
  ]
