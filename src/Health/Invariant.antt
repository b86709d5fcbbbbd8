-- ===== src/Health/Invariant.antt =====
-- What holds of a manager's records between two operations of
-- src/rust/gdnd/gdnd-core/src/state_machine.rs, whatever the operations.
use gpu_dead_node_detector.Health.{
  set_recovery_enabled, healthy, suspected, unhealthy, isolated, GpuHealth, Clock, HealthEvent,
  GpuHealthManager, Thresholds, new_health, step, device_key, get_or_create, transition,
  new_manager, with_recovery,
}
use gpu_dead_node_detector.Common.{
  Bool, ℕ, ◌+◌, ◌≤◌, ◌<◌, max, String, true, ◌≡◌, refl, ◌≢◌, ◌⊎◌, inl, inr, some, List, [], arith,
  u32_mod, Option-cases, lookup, lookup-nil, insert-keeps, is_distinct, is_distinct-insert,
}
use gpu_dead_node_detector.Device.{DeviceId}

-- The counters of one record agree with its state, and the next `+= 1` cannot overflow.
pub record IsSound (failure : ℕ) (h : GpuHealth) : Type 0 where
  pub idle : h.state ≢ isolated → h.recovery_count ≡ 0
  pub calm : h.state ≡ healthy → (h.failure_count ≡ 0) × (h.last_findings ≡ [])
  pub counting : h.state ≡ suspected → (1 ≤ h.failure_count) × (h.failure_count < max 2 failure)
  pub reached : (h.state ≡ unhealthy) ⊎ (h.state ≡ isolated) → failure ≤ h.failure_count
  pub failures_fit : h.failure_count < u32_mod
  pub recoveries_fit : h.recovery_count + 1 < u32_mod

pub new_health-IsSound : (failure now : ℕ) (d : DeviceId) → IsSound failure (new_health now d)
unfolding new_health
new_health-IsSound failure now d = ground arith

-- Every event keeps a sound record sound.
pub step-IsSound :
    (t : Thresholds) (d : DeviceId) (clock : Clock) (event : HealthEvent) (h : GpuHealth)
    → t.failure < u32_mod
    → t.recovery < u32_mod
    → IsSound t.failure h
    → IsSound t.failure (step t d clock event h).0
unfolding step
step-IsSound t d clock event h f r s = ground arith

pub device-step :
    (t : Thresholds) (d : DeviceId) (clock : Clock) (event : HealthEvent) (h : GpuHealth)
    → (step t d clock event h).0.device ≡ h.device
unfolding step
device-step t d clock event h = ground arith

-- What a manager's map holds: one sound record for each key, the key of the record's device.
pub record IsValid (m : GpuHealthManager) : Type 0 where
  pub failure_fits : m.failure_threshold < u32_mod
  pub recovery_fits : m.recovery_threshold < u32_mod
  pub distinct : is_distinct m.health ≡ true
  pub sound :
      (k : String) (h : GpuHealth)
      → lookup k m.health ≡ some h
      → IsSound m.failure_threshold h × (device_key h.device ≡ k)

pub new_manager-IsValid :
    (failure : ℕ) (xids : List ℕ) → failure < u32_mod → IsValid (new_manager failure xids)
unfolding new_manager is_distinct
new_manager-IsValid failure xids fits = record {
  failure_fits = fits;
  recovery_fits = omega arith;
  distinct = refl;
  sound = λ k h e. cc (lookup-nil {V = GpuHealth} k);
}

pub with_recovery-IsValid :
    (failure recovery : ℕ) (xids : List ℕ)
    → failure < u32_mod
    → recovery < u32_mod
    → IsValid (with_recovery failure recovery xids)
unfolding with_recovery is_distinct
with_recovery-IsValid failure recovery xids f r = record {
  failure_fits = f;
  recovery_fits = r;
  distinct = refl;
  sound = λ k h e. cc (lookup-nil {V = GpuHealth} k);
}

-- The record that `transition` starts from is sound, and is the record of the device's key.
pub get_or_create-IsSound :
    (m : GpuHealthManager) (now : ℕ) (d : DeviceId)
    → IsValid m
    → IsSound m.failure_threshold (get_or_create now m d)
      × (device_key (get_or_create now m d).device ≡ device_key d)
unfolding get_or_create
get_or_create-IsSound m now d v = elim (Option-cases (lookup (device_key d) m.health)) [
  | inl e ↦ rw e (new_health-IsSound m.failure_threshold now d, unfold new_health in refl)
  | inr (h, e) ↦ rw e (v.sound (device_key d) h e)
]

pub transition-IsValid :
    (m : GpuHealthManager) (clock : Clock) (d : DeviceId) (event : HealthEvent)
    → IsValid m
    → IsValid (transition m clock d event).0
unfolding transition
transition-IsValid m clock d event v =
    let old = get_or_create-IsSound m clock.created d v in
    record {
      failure_fits = v.failure_fits;
      recovery_fits = v.recovery_fits;
      distinct = is_distinct-insert (device_key d) _ m.health v.distinct;
      sound =
          insert-keeps (λ k h. IsSound m.failure_threshold h × (device_key h.device ≡ k)) _ _
            m.health
            (
              step-IsSound _ d clock event _ v.failure_fits v.recovery_fits old.0,
              rw device-step old.1,
            )
            v.sound;
    }

-- The operations that change a manager, one after the other.
pub data Reach (m : GpuHealthManager) : GpuHealthManager → Type 0 where
  here : Reach m m
  event :
      {n : GpuHealthManager} (clock : Clock) (d : DeviceId) (e : HealthEvent)
      → Reach m n
      → Reach m (transition n clock d e).0
  settings :
      {n : GpuHealthManager} (enabled : Bool) (threshold : ℕ)
      → threshold < u32_mod
      → Reach m n
      → Reach m (set_recovery_enabled n enabled threshold)

pub settings-IsValid :
    (m : GpuHealthManager) (enabled : Bool) (threshold : ℕ)
    → threshold < u32_mod
    → IsValid m
    → IsValid (set_recovery_enabled m enabled threshold)
unfolding set_recovery_enabled
settings-IsValid m enabled threshold fits v = record {
  failure_fits = v.failure_fits;
  recovery_fits = fits;
  distinct = v.distinct;
  sound = v.sound;
}

-- Whatever events and settings follow one another, a valid manager stays valid: one record for
-- each key, each with counters that agree with its state and that the next increment of a u32
-- does not overflow.
pub Reach-IsValid : {m n : GpuHealthManager} → IsValid m → Reach m n → IsValid n
Reach-IsValid v here = v
Reach-IsValid v (event {n} clock d e r) = transition-IsValid n clock d e (Reach-IsValid v r)
Reach-IsValid v (settings {n} enabled threshold fits r) =
    settings-IsValid n enabled threshold fits (Reach-IsValid v r)
