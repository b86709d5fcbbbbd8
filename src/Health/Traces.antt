-- ===== src/Health/Traces.antt =====
-- Sequences of events for many devices, and what each device sees of them.
use gpu_dead_node_detector.Common.{
  ap, ◌≡◌, refl, inl, inr, ◌∙◌, List, [], ◌∷◌, if◌then◌else◌, Bool-cases, str_eq, ◌++◌,
}
use gpu_dead_node_detector.Device.{DeviceId}
use gpu_dead_node_detector.Health.{
  Clock, HealthEvent, GpuHealthManager, device_key, transition, thresholds,
}
use gpu_dead_node_detector.Health.Invariant.{IsValid, transition-IsValid}
use gpu_dead_node_detector.Health.Status.{
  Status, Kind, Policy, kind_of, policy, advance, status_of, status_of-transition,
}

pub record Occurrence : Type 0 where
  pub clock : Clock
  pub device : DeviceId
  pub event : HealthEvent

-- The calls of `transition`, one after the other.
unfoldable pub replay : GpuHealthManager → List Occurrence → GpuHealthManager
replay m [] = m
replay m (o ∷ os) = replay (transition m o.clock o.device o.event).0 os

-- The kinds of the events of one device.
abbrev pub own : DeviceId → List Occurrence → List Kind
own d [] = []
own d (o ∷ os) =
    if str_eq (device_key o.device) (device_key d) then kind_of o.event ∷ own d os else own d os

abbrev pub follow : Policy → List Kind → Status → Status
follow p [] s = s
follow p (k ∷ ks) s = follow p ks (advance p k s)

pub replay-append :
    (m : GpuHealthManager) (os ps : List Occurrence) → replay m (os ++ ps) ≡ replay (replay m os) ps
unfolding replay
replay-append m [] ps = refl
replay-append m (o ∷ os) ps = replay-append (transition m o.clock o.device o.event).0 os ps

pub replay-IsValid :
    (m : GpuHealthManager) (os : List Occurrence) → IsValid m → IsValid (replay m os)
unfolding replay
replay-IsValid m [] v = v
replay-IsValid m (o ∷ os) v =
    replay-IsValid (transition m o.clock o.device o.event).0 os
      (transition-IsValid m o.clock o.device o.event v)

pub thresholds-transition :
    (m : GpuHealthManager) (o : Occurrence)
    → thresholds (transition m o.clock o.device o.event).0 ≡ thresholds m
unfolding transition
thresholds-transition m o = refl

step-own :
    (m : GpuHealthManager) (o : Occurrence) (os : List Occurrence) (d : DeviceId)
    → IsValid m
    → follow
        (policy (thresholds m))
        (own d os)
        (status_of (transition m o.clock o.device o.event).0 d)
      ≡ follow (policy (thresholds m)) (own d (o ∷ os)) (status_of m d)
step-own m o os d v =
    let head = status_of-transition m o.clock o.device d o.event v in
    elim (Bool-cases (str_eq (device_key o.device) (device_key d))) [
      | inl same ↦ rw same (ap (follow (policy (thresholds m)) (own d os)) (rw same at head))
      | inr differ ↦ rw differ (ap (follow (policy (thresholds m)) (own d os)) (rw differ at head))
    ]

-- Whatever the events of the other devices, a device's status after a sequence of events is what
-- the automaton makes of that device's own events alone, in their order.
pub status_of-replay :
    (m : GpuHealthManager) (os : List Occurrence) (d : DeviceId)
    → IsValid m
    → status_of (replay m os) d ≡ follow (policy (thresholds m)) (own d os) (status_of m d)
unfolding replay
status_of-replay m [] d v = refl
status_of-replay m (o ∷ os) d v =
    status_of-replay (transition m o.clock o.device o.event).0 os d
      (transition-IsValid m o.clock o.device o.event v)
    ∙ rw (thresholds-transition m o) (step-own m o os d v)
