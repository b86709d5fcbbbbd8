-- ===== src/Health/Overview.antt =====
-- The queries over all records of a manager: `has_unhealthy` and `unhealthy_gpus`.
use gpu_dead_node_detector.Health.Queries.{unhealthy_gpus, has_unhealthy}
use mathlib.Core.List.{Memᴰ}
use gpu_dead_node_detector.Health.{
  unhealthy, state_eq, GpuHealth, get, GpuHealthManager, device_key,
}
use gpu_dead_node_detector.Common.{
  lookup, Dict, Holds, String, any, All, ◌≡◌, keep, some, not, map, is_empty, Holds-lookup, ◌∷◌,
  arith, Bool-cases, str_eq, [], inl, refl, some-injective, inr,
}
use gpu_dead_node_detector.Health.Invariant.{IsValid}
use gpu_dead_node_detector.Device.{DeviceId}

reported :
    (P : GpuHealth → Type 0) (m : Dict GpuHealth)
    → Holds (λ k h. P h) m
    → All
        (λ h. (h.state ≡ unhealthy) × P h)
        (keep (λ h. state_eq h.state unhealthy) (map (λ e. e.1) m))
unfolding state_eq
reported P [] h = tt
reported P ((k, h) ∷ m) (p, ps) = ground (arith, reported P m ps)

found :
    (k : String) (h : GpuHealth) (m : Dict GpuHealth)
    → lookup k m ≡ some h
    → h.state ≡ unhealthy
    → Memᴰ h (keep (λ h. state_eq h.state unhealthy) (map (λ e. e.1) m))
unfolding state_eq lookup
found k h [] e s = absurd (cc)
found k h ((j, g) ∷ m) e s = elim (Bool-cases (str_eq j k)) [
  | inl same ↦ let g≡h : g ≡ h = some-injective g h (rw same at e) in rw g≡h (rw s (Memᴰ.head refl))
  | inr other ↦
      let rest = found k h m (rw other at e) s in
      elim (Bool-cases (state_eq g.state unhealthy)) [
        | inl bad ↦ rw bad (Memᴰ.tail rest)
        | inr fine ↦ rw fine rest
      ]
]

any_kept :
    (m : Dict GpuHealth)
    → any (λ e. state_eq e.1.state unhealthy) m
      ≡ not (is_empty (keep (λ h. state_eq h.state unhealthy) (map (λ e. e.1) m)))
unfolding state_eq
any_kept [] = refl
any_kept ((k, h) ∷ m) = ground (arith, any_kept m)

-- In a valid manager, `unhealthy_gpus` reports the record of a device only if that is its record
-- and its state is unhealthy, and `has_unhealthy` says whether it reports any.
pub unhealthy_gpus_sound :
    (m : GpuHealthManager)
    → IsValid m
    → All (λ h. (h.state ≡ unhealthy) × (get m h.device ≡ some h)) (unhealthy_gpus m)
      × (has_unhealthy m ≡ not (is_empty (unhealthy_gpus m)))
unfolding unhealthy_gpus has_unhealthy get
unhealthy_gpus_sound m v = (
  reported (λ h. lookup (device_key h.device) m.health ≡ some h) m.health
      (Holds-lookup _ m.health v.distinct λ k h e. rw (v.sound k h e).1 e),
  any_kept m.health,
)

-- Every device whose record is unhealthy is reported.
pub unhealthy_gpus_complete :
    (m : GpuHealthManager) (d : DeviceId) {h : GpuHealth}
    → get m d ≡ some h
    → h.state ≡ unhealthy
    → Memᴰ h (unhealthy_gpus m)
unfolding unhealthy_gpus get
unhealthy_gpus_complete m d {h} e s = found (device_key d) h m.health e s
