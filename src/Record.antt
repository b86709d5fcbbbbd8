-- ===== src/Record.antt =====
-- src/rust/gdnd/gdnd-core/src/state_machine.rs: the data of the state machine. These are the states,
-- the record of a device, the events and what a transition reports.
use gpu_dead_node_detector.Common.{ℕ, String, Bool, true, false, not, List, []}
use gpu_dead_node_detector.Device.{DeviceId}
use gpu_dead_node_detector.Detection.{Finding}

pub data HealthState : Type 0 where
  healthy suspected unhealthy isolated : HealthState

-- the derived `==`
unfoldable pub state_eq : HealthState → HealthState → Bool
state_eq healthy healthy = true
state_eq suspected suspected = true
state_eq unhealthy unhealthy = true
state_eq isolated isolated = true
state_eq _ _ = false

pub data IsolationAction : Type 0 where
  cordon uncordon evict_pods : IsolationAction
  taint : String → String → String → IsolationAction
  remove_taint : String → IsolationAction
  alert : String → String → IsolationAction

pub record GpuHealth : Type 0 where
  pub device : DeviceId
  pub state : HealthState
  pub failure_count : ℕ
  pub recovery_count : ℕ
  pub last_check : ℕ
  pub state_changed_at : ℕ
  pub last_findings : List Finding

-- What `Utc::now()` answers in one call of `transition`: where a record is created, at the start,
-- and where the state changes.
pub record Clock : Type 0 where
  pub created : ℕ
  pub checked : ℕ
  pub changed : ℕ

-- `GpuHealth::new`
unfoldable pub new_health : ℕ → DeviceId → GpuHealth
new_health now device = record {
  device = device;
  state = healthy;
  failure_count = 0;
  recovery_count = 0;
  last_check = now;
  state_changed_at = now;
  last_findings = [];
}

pub data HealthEvent : Type 0 where
  check_passed : HealthEvent
  check_failed : List Finding → HealthEvent
  fatal_error : List Finding → HealthEvent
  isolation_completed : HealthEvent

pub record StateTransition : Type 0 where
  pub from : HealthState
  pub to : HealthState
  pub actions : List IsolationAction
  pub changed : Bool

unfoldable pub no_change : HealthState → StateTransition
no_change state = record { from = state; to = state; actions = []; changed = false }

-- `StateTransition::transition`
unfoldable pub change : HealthState → HealthState → List IsolationAction → StateTransition
unfolding state_eq
change from to actions = record {
  from = from;
  to = to;
  actions = actions;
  changed = not (state_eq from to);
}
