-- ===== src/Health/Status.antt =====
-- What a client sees of one device, with no clocks, findings or map: an automaton with unbounded
-- counters, which the manager of src/rust/gdnd/gdnd-core/src/state_machine.rs implements.
use gpu_dead_node_detector.Common.{
  ◌∙◌, ℕ, ◌+◌, ◌<◌, true, ◌≡◌, inl, inr, Option, none, some, arith, leb, if◌then◌else◌, u32_mod,
  Bool-cases, Option-cases, lookup, lookup-insert, eq_iff, str_eq, ap,
}
use gpu_dead_node_detector.Device.{DeviceId}
use gpu_dead_node_detector.Health.{
  HealthState, healthy, suspected, unhealthy, isolated, GpuHealth, Clock, HealthEvent, check_passed,
  check_failed, fatal_error, isolation_completed, GpuHealthManager, Thresholds, new_health, step,
  device_key, get_or_create, get, transition, thresholds,
}
use gpu_dead_node_detector.Health.Invariant.{IsSound, IsValid, get_or_create-IsSound}

-- Healthy; suspected after some failures in a row; confirmed unhealthy; isolated, with some passes
-- in a row.
pub data Status : Type 0 where
  fine condemned : Status
  doubted cut_off : ℕ → Status

pub data Kind : Type 0 where
  passed failed fatal completed : Kind

abbrev pub kind_of : HealthEvent → Kind
kind_of check_passed = passed
kind_of (check_failed _) = failed
kind_of (fatal_error _) = fatal
kind_of isolation_completed = completed

-- The thresholds; `recovery` is `none` where recovery is disabled.
pub record Policy : Type 0 where
  pub failure : ℕ
  pub recovery : Option ℕ

abbrev pub policy : Thresholds → Policy
policy t = record { failure = t.failure; recovery = if t.enabled then some t.recovery else none }

abbrev resume : Option ℕ → ℕ → Status
resume none n = cut_off n
resume (some r) n = if leb r (n + 1) then fine else cut_off (n + 1)

unfoldable pub advance : Policy → Kind → Status → Status
advance p passed fine = fine
advance p failed fine = doubted 1
advance p fatal fine = condemned
advance p completed fine = fine
advance p passed (doubted n) = fine
advance p failed (doubted n) = if leb p.failure (n + 1) then condemned else doubted (n + 1)
advance p fatal (doubted n) = condemned
advance p completed (doubted n) = doubted n
advance p completed condemned = cut_off 0
advance p _ condemned = condemned
advance p passed (cut_off n) = resume p.recovery n
advance p failed (cut_off n) = cut_off 0
advance p fatal (cut_off n) = cut_off 0
advance p completed (cut_off n) = cut_off n

abbrev status_at : HealthState → GpuHealth → Status
status_at healthy h = fine
status_at suspected h = doubted h.failure_count
status_at unhealthy h = condemned
status_at isolated h = cut_off h.recovery_count

abbrev pub status : GpuHealth → Status
status h = status_at h.state h

abbrev known : Option GpuHealth → Status
known none = fine
known (some h) = status h

-- The status of a device; one that was never checked is healthy.
unfoldable pub status_of : GpuHealthManager → DeviceId → Status
status_of m d = known (get m d)

-- One event on a sound record is one step of the automaton.
pub status-step :
    (t : Thresholds) (d : DeviceId) (clock : Clock) (event : HealthEvent) (h : GpuHealth)
    → t.failure < u32_mod
    → IsSound t.failure h
    → status (step t d clock event h).0 ≡ advance (policy t) (kind_of event) (status h)
unfolding step advance
status-step t d clock event h f s = ground arith

status-get_or_create :
    (m : GpuHealthManager) (now : ℕ) (d : DeviceId) → status (get_or_create now m d) ≡ status_of m d
unfolding get_or_create status_of get new_health
status-get_or_create m now d = elim (Option-cases (lookup (device_key d) m.health)) [
  | inl e ↦ rw e
  | inr (h, e) ↦ rw e
]

pub status_of_key :
    (m : GpuHealthManager) (d other : DeviceId)
    → str_eq (device_key d) (device_key other) ≡ true
    → status_of m d ≡ status_of m other
unfolding status_of get
status_of_key m d other same =
    ap (λ k. known (lookup k m.health)) ((eq_iff (device_key d) (device_key other)).0 same)

-- In a valid manager, an event for a device moves that device's status as the automaton says, and
-- no status of a device with another key; so the counters of a u32 never wrap.
pub status_of-transition :
    (m : GpuHealthManager) (clock : Clock) (d other : DeviceId) (event : HealthEvent)
    → IsValid m
    → status_of (transition m clock d event).0 other ≡ (
        if str_eq (device_key d) (device_key other)
        then advance (policy (thresholds m)) (kind_of event) (status_of m other)
        else status_of m other)
unfolding transition
status_of-transition m clock d other event v =
    elim (Bool-cases (str_eq (device_key d) (device_key other))) [
      | inl same ↦ rw same (
          unfold status_of get in
          rw (lookup-insert, same)
            (status-step (thresholds m) d clock event _ v.failure_fits
                (get_or_create-IsSound m clock.created d v).0
              ∙ ap (advance _ _)
                  (status-get_or_create m clock.created d ∙ status_of_key m d other same)))
      | inr differ ↦ rw differ (unfold status_of get in rw (lookup-insert, differ))
    ]

-- The state that a status stands for.
abbrev pub state_in : Status → HealthState
state_in fine = healthy
state_in (doubted n) = suspected
state_in condemned = unhealthy
state_in (cut_off n) = isolated

pub status_of-get :
    (m n : GpuHealthManager) (d : DeviceId) → get n d ≡ get m d → status_of n d ≡ status_of m d
unfolding status_of
status_of-get m n d e = ap known e
