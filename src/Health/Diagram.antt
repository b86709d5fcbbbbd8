-- ===== src/Health/Diagram.antt =====
-- What `transition` reports: the states before and after, an edge of the state diagram, and the
-- actions that go with it.
use gpu_dead_node_detector.Health.{
  healthy, suspected, unhealthy, isolated, HealthState, HealthEvent, GpuHealthManager, step,
  GpuHealth, get, Thresholds, IsolationAction, Clock, isolation_actions, check_failed,
  recovery_actions, fatal_error, state_eq, get_or_create, transition, new_health, thresholds,
  device_key, isolation_completed,
}
use gpu_dead_node_detector.Device.{DeviceId}
use gpu_dead_node_detector.Common.{
  Option, List, some, ◌≡◌, none, true, not, [], arith, ◌⊎◌, ℕ, lookup-insert, ◌≢◌, Option-cases,
  eq_refl, eq_iff, lookup, inl, inr, ◌∙◌, ap,
}
use gpu_dead_node_detector.Detection.{Finding}

pub data Edge : HealthState → HealthState → Type 0 where
  suspect : Edge healthy suspected
  condemn : Edge healthy unhealthy
  confirm : Edge suspected unhealthy
  clear : Edge suspected healthy
  isolate : Edge unhealthy isolated
  restore : Edge isolated healthy

ruleset edges = (suspect, condemn, confirm, clear, isolate, restore)

-- The findings that an event carries.
abbrev pub findings_of : HealthEvent → List Finding
findings_of (check_failed findings) = findings
findings_of (fatal_error findings) = findings
findings_of _ = []

-- The actions that each move asks for.
abbrev pub actions_for : DeviceId → HealthEvent → HealthState → HealthState → List IsolationAction
actions_for d event healthy unhealthy = isolation_actions d (findings_of event)
actions_for d event suspected unhealthy = isolation_actions d (findings_of event)
actions_for d event isolated healthy = recovery_actions d
actions_for d event _ _ = []

-- The state of a device; one that was never checked is healthy.
abbrev shown : Option GpuHealth → HealthState
shown none = healthy
shown (some h) = h.state

unfoldable pub state_of : GpuHealthManager → DeviceId → HealthState
state_of m d = shown (get m d)

step-Edge :
    (t : Thresholds) (d : DeviceId) (clock : Clock) (event : HealthEvent) (h : GpuHealth)
    → (step t d clock event h).1.changed ≡ true
    → Edge h.state (step t d clock event h).0.state
unfolding step
step-Edge t d clock event h e = grind (arith, edges)

step_report :
    (t : Thresholds) (d : DeviceId) (clock : Clock) (event : HealthEvent) (h : GpuHealth)
    → let (h', done) = step t d clock event h in
      (done.from ≡ h.state)
      × (done.to ≡ h'.state)
      × (done.changed ≡ not (state_eq h.state h'.state))
      × (done.actions ≡ actions_for d event h.state h'.state)
unfolding step
step_report t d clock event h = ground arith

-- A step follows an edge of the diagram or keeps the state.
step_moves :
    (t : Thresholds) (d : DeviceId) (clock : Clock) (event : HealthEvent) (h : GpuHealth)
    → let h' = (step t d clock event h).0 in (h'.state ≡ h.state) ⊎ Edge h.state h'.state
unfolding step
step_moves t d clock event h = grind (arith, edges)

pub state-get_or_create :
    (m : GpuHealthManager) (now : ℕ) (d : DeviceId) → (get_or_create now m d).state ≡ state_of m d
unfolding get_or_create state_of get new_health
state-get_or_create m now d = elim (Option-cases (lookup (device_key d) m.health)) [
  | inl e ↦ rw e
  | inr (h, e) ↦ rw e
]

pub state_of-transition :
    (m : GpuHealthManager) (clock : Clock) (d : DeviceId) (event : HealthEvent)
    → state_of (transition m clock d event).0 d
      ≡ (step (thresholds m) d clock event (get_or_create clock.created m d)).0.state
unfolding state_of get transition
state_of-transition m clock d event = rw (lookup-insert, eq_refl)

-- The report of `transition` is true: it names the device's state before and after, says `changed`
-- exactly when they differ, carries the isolation actions exactly for a device that has become
-- unhealthy, the recovery actions for one that is restored and none otherwise, and every move is an
-- edge of the diagram.
pub transition_report :
    (m : GpuHealthManager) (clock : Clock) (d : DeviceId) (event : HealthEvent)
    → let (m', done) = transition m clock d event in
      (done.from ≡ state_of m d)
      × (done.to ≡ state_of m' d)
      × (done.changed ≡ not (state_eq (state_of m d) (state_of m' d)))
      × (done.actions ≡ actions_for d event (state_of m d) (state_of m' d))
      × ((state_of m' d ≡ state_of m d) ⊎ Edge (state_of m d) (state_of m' d))
transition_report m clock d event =
    let h = get_or_create clock.created m d in
    let report = step_report (thresholds m) d clock event h in
    let moves = step_moves (thresholds m) d clock event h in
    rw (state_of-transition m clock d event, ← state-get_or_create m clock.created d)
      (unfold transition in (report.0, report.1, report.2, report.3, moves))

-- A transition leaves the record of every device with another key as it was, created or not.
pub get-transition_ne :
    (m : GpuHealthManager) (clock : Clock) (d other : DeviceId) (event : HealthEvent)
    → device_key d ≢ device_key other
    → get (transition m clock d event).0 other ≡ get m other
unfolding get transition
get-transition_ne m clock d other event ne =
    rw lookup-insert (ground (arith, eq_iff (device_key d) (device_key other)))

-- A completed isolation isolates an unhealthy device and changes the state of no other.
abbrev pub after_completion : HealthState → HealthState
after_completion unhealthy = isolated
after_completion state = state

step_completion :
    (t : Thresholds) (d : DeviceId) (clock : Clock) (h : GpuHealth)
    → (step t d clock isolation_completed h).0.state ≡ after_completion h.state
unfolding step
step_completion t d clock h = ground arith

pub state_of-completion :
    (m : GpuHealthManager) (clock : Clock) (d : DeviceId)
    → state_of (transition m clock d isolation_completed).0 d ≡ after_completion (state_of m d)
state_of-completion m clock d =
    state_of-transition m clock d isolation_completed
    ∙ step_completion (thresholds m) d clock (get_or_create clock.created m d)
    ∙ ap after_completion (state-get_or_create m clock.created d)

-- A transition leaves a record of its device.
pub get-transition :
    (m : GpuHealthManager) (clock : Clock) (d : DeviceId) (event : HealthEvent)
    → (h : GpuHealth) × (get (transition m clock d event).0 d ≡ some h)
unfolding get transition
get-transition m clock d event = (
  (step (thresholds m) d clock event (get_or_create clock.created m d)).0,
  rw (lookup-insert, eq_refl),
)

-- The state of a device hangs on its key alone, and on the record that is kept under it.
pub state_of_key :
    (m : GpuHealthManager) (d other : DeviceId)
    → device_key d ≡ device_key other
    → state_of m d ≡ state_of m other
unfolding state_of get
state_of_key m d other e = ap (λ k. shown (lookup k m.health)) e

pub state_of-get :
    (m n : GpuHealthManager) (d : DeviceId) → get n d ≡ get m d → state_of n d ≡ state_of m d
unfolding state_of
state_of-get m n d e = ap shown e
