-- ===== src/Health/Queries.antt =====
-- src/rust/gdnd/gdnd-core/src/state_machine.rs: what the manager is asked for.
use gpu_dead_node_detector.Health.{
  healthy, suspected, unhealthy, isolated, GpuHealthManager, HealthState, GpuHealth, state_eq,
}
use gpu_dead_node_detector.Common.{List, Bool, String, any, map, keep}

-- `self.health.values()`
abbrev pub all : GpuHealthManager → List GpuHealth
all m = map (λ e. e.1) m.health

abbrev pub is_recovery_enabled : GpuHealthManager → Bool
is_recovery_enabled m = m.recovery_enabled

-- The `Display` of a state.
abbrev pub state_text : HealthState → String
state_text healthy = "HEALTHY"
state_text suspected = "SUSPECTED"
state_text unhealthy = "UNHEALTHY"
state_text isolated = "ISOLATED"

unfoldable pub has_unhealthy : GpuHealthManager → Bool
has_unhealthy m = any (λ e. state_eq e.1.state unhealthy) m.health

unfoldable pub unhealthy_gpus : GpuHealthManager → List GpuHealth
unhealthy_gpus m = keep (λ h. state_eq h.state unhealthy) (all m)
