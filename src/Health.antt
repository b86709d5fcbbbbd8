-- ===== src/Health.antt =====
-- src/rust/gdnd/gdnd-core/src/state_machine.rs: the manager of the records of Record, and its
-- operations. The readings of `Utc::now()` are an argument, and a u32 counter wraps. The invariant,
-- the diagram and the counting theorems stand in the modules below.
pub mod Queries
pub mod Invariant
pub mod Status
pub mod Traces
pub mod Counting
pub mod Recovery
pub mod Diagram
pub mod Overview
pub mod Checks
use gpu_dead_node_detector.Common.{
  ℕ, ◌+◌, ◌%◌, ◌<◌, String, Bool, true, false, not, Option, none, some, get_or, List, [], ◌∷◌, map,
  any, keep, ltb, leb, if◌then◌else◌, u32_mod, decimal, concat, join, Dict, lookup, insert,
}
pub use gpu_dead_node_detector.Record.{
  HealthState, healthy, suspected, unhealthy, isolated, IsolationAction, cordon, uncordon,
  evict_pods, taint, remove_taint, alert, GpuHealth, Clock, HealthEvent, check_passed, check_failed,
  fatal_error, isolation_completed, StateTransition,
}
unfoldable pub use gpu_dead_node_detector.Record.{state_eq, new_health, no_change, change}
use gpu_dead_node_detector.Device.{DeviceId, display}
use gpu_dead_node_detector.Detection.{Finding, DetectionResult, has_fatal_finding}

pub record GpuHealthManager : Type 0 where
  pub health : Dict GpuHealth
  pub failure_threshold : ℕ
  pub recovery_threshold : ℕ
  pub recovery_enabled : Bool
  pub fatal_xids : List ℕ

-- `GpuHealthManager::new`
unfoldable pub new_manager : ℕ → List ℕ → GpuHealthManager
new_manager failure_threshold fatal_xids = record {
  health = [];
  failure_threshold = failure_threshold;
  recovery_threshold = 0;
  recovery_enabled = false;
  fatal_xids = fatal_xids;
}

unfoldable pub with_recovery : ℕ → ℕ → List ℕ → GpuHealthManager
with_recovery failure_threshold recovery_threshold fatal_xids = record {
  health = [];
  failure_threshold = failure_threshold;
  recovery_threshold = recovery_threshold;
  recovery_enabled = ltb 0 recovery_threshold;
  fatal_xids = fatal_xids;
}

unfoldable pub set_recovery_enabled : GpuHealthManager → Bool → ℕ → GpuHealthManager
set_recovery_enabled m enabled threshold = record m {
  recovery_enabled = enabled;
  recovery_threshold = threshold;
}

unfoldable pub device_key : DeviceId → String
device_key d = get_or d.uuid (concat ("gpu-" ∷ decimal d.index ∷ []))

-- The record that `get_or_create_mut` hands out; `transition` writes it back under the same key.
unfoldable pub get_or_create : ℕ → GpuHealthManager → DeviceId → GpuHealth
unfolding device_key
get_or_create now m d = get_or (lookup (device_key d) m.health) (new_health now d)

unfoldable pub get : GpuHealthManager → DeviceId → Option GpuHealth
unfolding device_key
get m d = lookup (device_key d) m.health

abbrev pub gpu_health_taint : String
gpu_health_taint = "nvidia.com/gpu-health"

unfoldable pub isolation_actions : DeviceId → List Finding → List IsolationAction
isolation_actions d findings =
    cordon
    ∷ taint gpu_health_taint "failed" "NoSchedule"
    ∷ alert
        (concat (
          "GPU "
          ∷ display d
          ∷ " marked unhealthy: "
          ∷ join ", " (map (λ f. f.message) findings)
          ∷ []))
        "critical"
    ∷ []

unfoldable pub recovery_actions : DeviceId → List IsolationAction
recovery_actions d =
    remove_taint gpu_health_taint
    ∷ uncordon
    ∷ alert (concat ("GPU " ∷ display d ∷ " recovered and restored to service" ∷ [])) "info"
    ∷ []

-- The thresholds that `transition` copies before it borrows the record.
pub record Thresholds : Type 0 where
  pub failure : ℕ
  pub recovery : ℕ
  pub enabled : Bool

-- An operation on a device's record returns the record and the transition.
abbrev pub Stepped : Type 0
Stepped = GpuHealth × StateTransition

-- The fatal branch, the same from healthy and from suspected.
unfoldable pub fatal : Thresholds → DeviceId → ℕ → List Finding → GpuHealth → Stepped
unfolding change
fatal t d now findings h = (
  record h {
    failure_count = t.failure;
    state = unhealthy;
    state_changed_at = now;
    last_findings = findings;
  },
  change h.state unhealthy (isolation_actions d findings),
)

-- One more failure of a suspected device.
unfoldable pub fail_again : Thresholds → DeviceId → ℕ → List Finding → GpuHealth → Stepped
unfolding change no_change
fail_again t d now findings h =
    let failures = (h.failure_count + 1) % u32_mod in
    let h' = record h { failure_count = failures; last_findings = findings } in
    if leb t.failure failures
    then (
      record h' { state = unhealthy; state_changed_at = now },
      change h.state unhealthy (isolation_actions d findings),
    )
    else (h', no_change suspected)

-- One more pass of an isolated device.
unfoldable pub recover : Thresholds → DeviceId → ℕ → GpuHealth → Stepped
unfolding change no_change
recover t d now h =
    let passes = (h.recovery_count + 1) % u32_mod in
    if t.enabled
    then if leb t.recovery passes
      then (
        record h {
          state = healthy;
          state_changed_at = now;
          failure_count = 0;
          recovery_count = 0;
          last_findings = [];
        },
        change h.state healthy (recovery_actions d),
      )
      else (record h { recovery_count = passes }, no_change isolated)
    else (h, no_change isolated)

-- A failure of an isolated device, fatal or not.
unfoldable pub reset_recovery : GpuHealth → Stepped
unfolding no_change
reset_recovery h = (record h { recovery_count = 0 }, no_change isolated)

-- The `match` of `transition` on the state and the event; `h` has its `last_check` already.
unfoldable pub dispatch :
    Thresholds → DeviceId → ℕ → HealthState → HealthEvent → GpuHealth → Stepped
unfolding fatal fail_again recover reset_recovery change no_change
dispatch t d now healthy check_passed h = (record h { failure_count = 0 }, no_change healthy)
dispatch t d now healthy (check_failed findings) h = (
  record h {
    failure_count = 1;
    state = suspected;
    state_changed_at = now;
    last_findings = findings;
  },
  change h.state suspected [],
)
dispatch t d now healthy (fatal_error findings) h = fatal t d now findings h
dispatch t d now suspected check_passed h = (
  record h { failure_count = 0; state = healthy; state_changed_at = now; last_findings = [] },
  change h.state healthy [],
)
dispatch t d now suspected (check_failed findings) h = fail_again t d now findings h
dispatch t d now suspected (fatal_error findings) h = fatal t d now findings h
dispatch t d now unhealthy isolation_completed h =
    (record h { state = isolated; state_changed_at = now }, change h.state isolated [])
dispatch t d now unhealthy _ h = (h, no_change unhealthy)
dispatch t d now isolated check_passed h = recover t d now h
dispatch t d now isolated (check_failed findings) h = reset_recovery h
dispatch t d now isolated (fatal_error findings) h = reset_recovery h
dispatch t d now isolated isolation_completed h = (h, no_change isolated)
dispatch t d now state isolation_completed h = (h, no_change h.state)

-- The body of `transition` on the device's record.
unfoldable pub step : Thresholds → DeviceId → Clock → HealthEvent → GpuHealth → Stepped
unfolding dispatch
step t d clock event h =
    dispatch t d clock.changed h.state event (record h { last_check = clock.checked })

abbrev pub thresholds : GpuHealthManager → Thresholds
thresholds m = record {
  failure = m.failure_threshold;
  recovery = m.recovery_threshold;
  enabled = m.recovery_enabled;
}

unfoldable pub transition :
    GpuHealthManager → Clock → DeviceId → HealthEvent → GpuHealthManager × StateTransition
transition m clock d event =
    let (h, done) = step (thresholds m) d clock event (get_or_create clock.created m d) in
    (record m { health = insert (device_key d) h m.health }, done)

-- The event that a detection result stands for.
unfoldable pub event_of : DetectionResult → HealthEvent
unfolding has_fatal_finding
event_of r =
    if r.passed
    then check_passed
    else if has_fatal_finding r
    then fatal_error r.findings
    else check_failed r.findings

unfoldable pub process_result :
    GpuHealthManager → Clock → DetectionResult → GpuHealthManager × StateTransition
process_result m clock r = transition m clock r.device (event_of r)
