-- ===== src/Tests/Health.antt =====
-- The theorems on the health states, on two devices and a manager with thresholds 3 and 2.
use gpu_dead_node_detector.Tests.Fixtures.{gpu0, gpu1, clock}
use gpu_dead_node_detector.Health.{
  GpuHealthManager, with_recovery, HealthEvent, set_recovery_enabled, get, new_health, check_failed,
  fatal_error, check_passed, transition, device_key, isolation_completed, healthy, step,
  get_or_create, state_eq,
}
use gpu_dead_node_detector.Health.Invariant.{
  IsValid, with_recovery-IsValid, Reach-IsValid, settings, event, here,
}
use gpu_dead_node_detector.Device.{DeviceId}
use gpu_dead_node_detector.Common.{List, ◌∷◌, ◌≡◌, [], false, arith, not, ◌⊎◌, lookup, insert, refl}
use gpu_dead_node_detector.Health.Status.{
  status_of, advance, doubted, condemned, status_of-transition, fine,
}
use gpu_dead_node_detector.Health.Diagram.{state_of, actions_for, Edge, transition_report}
use gpu_dead_node_detector.Health.Traces.{Occurrence, replay, replay-IsValid, status_of-replay}
use gpu_dead_node_detector.Health.Counting.{failures_condemn, IsTrusted, never_hasty}
use gpu_dead_node_detector.Health.Recovery.{passes_restore}

abbrev manager : GpuHealthManager
manager = with_recovery 3 2 (79 ∷ [])

manager-IsValid : IsValid manager
manager-IsValid = with_recovery-IsValid 3 2 (79 ∷ []) (omega arith) (omega arith)

abbrev happens : DeviceId → HealthEvent → Occurrence
happens d e = record { clock = clock; device = d; event = e }

-- Failures of one device among events of the other.
abbrev failing : List Occurrence
failing =
    happens gpu0 (check_failed [])
    ∷ happens gpu1 (fatal_error [])
    ∷ happens gpu0 (check_failed [])
    ∷ happens gpu1 isolation_completed
    ∷ happens gpu0 (check_failed [])
    ∷ []

abbrev wobbling : List Occurrence
wobbling =
    happens gpu0 (check_failed [])
    ∷ happens gpu0 check_passed
    ∷ happens gpu1 (fatal_error [])
    ∷ happens gpu0 (check_failed [])
    ∷ []

abbrev isolating : List Occurrence
isolating = happens gpu0 (fatal_error []) ∷ happens gpu0 isolation_completed ∷ []

abbrev passing : List Occurrence
passing =
    happens gpu0 check_passed ∷ happens gpu1 (check_failed []) ∷ happens gpu0 check_passed ∷ []

-- A manager in which the first device is isolated.
abbrev emptied : GpuHealthManager
emptied = replay manager isolating

emptied-IsValid : IsValid emptied
emptied-IsValid = replay-IsValid manager isolating manager-IsValid

Reach-IsValid_example :
    IsValid (set_recovery_enabled (transition manager clock gpu0 (fatal_error [])).0 false 2)
Reach-IsValid_example =
    Reach-IsValid manager-IsValid
      (settings false 2 (omega arith) (event clock gpu0 (fatal_error []) here))

status_of-transition_example :
    status_of (transition manager clock gpu0 (check_failed [])).0 gpu0 ≡ doubted 1
unfolding status_of get with_recovery advance device_key lookup
status_of-transition_example =
    status_of-transition manager clock gpu0 gpu0 (check_failed []) manager-IsValid

transition_report_example :
    let (m', done) = transition manager clock gpu0 (fatal_error []) in
    (done.from ≡ healthy)
    × (done.to ≡ state_of m' gpu0)
    × (done.changed ≡ not (state_eq healthy (state_of m' gpu0)))
    × (done.actions ≡ actions_for gpu0 (fatal_error []) healthy (state_of m' gpu0))
    × ((state_of m' gpu0 ≡ healthy) ⊎ Edge healthy (state_of m' gpu0))
unfolding state_of get with_recovery lookup device_key
transition_report_example = transition_report manager clock gpu0 (fatal_error [])

status_of-replay_example : status_of (replay manager wobbling) gpu0 ≡ doubted 1
unfolding status_of get with_recovery advance device_key lookup
status_of-replay_example = status_of-replay manager wobbling gpu0 manager-IsValid

failures_condemn_example : status_of (replay manager failing) gpu0 ≡ condemned
unfolding with_recovery status_of get device_key lookup
failures_condemn_example = failures_condemn manager failing gpu0 3 manager-IsValid refl refl

never_hasty_example : IsTrusted 2 (status_of (replay manager wobbling) gpu0)
unfolding with_recovery status_of get device_key lookup
never_hasty_example = never_hasty manager wobbling gpu0 manager-IsValid refl refl (omega arith)

passes_restore_example : status_of (replay emptied passing) gpu0 ≡ fine
unfolding with_recovery status_of get device_key replay transition step get_or_create new_health
    lookup insert
passes_restore_example = passes_restore emptied passing gpu0 2 emptied-IsValid refl refl refl
