-- ===== src/Config/Rules.antt =====
-- What the validation of a configuration accepts.
use gpu_dead_node_detector.Config.{Config, validate}
use gpu_dead_node_detector.Common.{◌≤◌, ◌≡◌, true, ok, arith}

-- The numbers of a configuration that is accepted.
pub record IsUsable (c : Config) : Type 0 where
  pub counts : 1 ≤ c.health.failure_threshold
  pub warm : (1 ≤ c.health.temperature_threshold) × (c.health.temperature_threshold ≤ 150)
  pub ticks : (1 ≤ c.l1_interval) × (1 ≤ c.l2_interval)
  pub served : c.metrics.enabled ≡ true → 1 ≤ c.metrics.port

pub validate_sound : (c : Config) → validate c ≡ ok tt → IsUsable c
unfolding validate
validate_sound c accepted = record {
  counts = ground (arith, accepted);
  warm = ground (arith, accepted);
  ticks = ground (arith, accepted);
  served = λ on. ground (arith, accepted, on);
}

pub validate_complete : (c : Config) → IsUsable c → validate c ≡ ok tt
unfolding validate
validate_complete c usable =
    let a = usable.counts in
    let b = usable.warm in
    let t = usable.ticks in let s = usable.served in ground (arith, a, b, t, s)

-- `validate` accepts exactly the configurations whose failure threshold and first two intervals are
-- positive, whose temperature threshold is from 1 to 150, and which have a port for the metrics where
-- these are on.
pub validate_lem :
    (c : Config) → (validate c ≡ ok tt → IsUsable c) × (IsUsable c → validate c ≡ ok tt)
validate_lem c = (validate_sound c, validate_complete c)
