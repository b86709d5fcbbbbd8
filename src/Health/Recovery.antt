-- ===== src/Health/Recovery.antt =====
-- How many passes restore an isolated device, and which statuses last.
use gpu_dead_node_detector.Health.Status.{
  fine, cut_off, condemned, passed, completed, advance, Status, Kind, Policy, status_of, policy,
}
use gpu_dead_node_detector.Common.{
  ℕ, List, Bool, ◌≡◌, true, any, replicate, some, none, false, ◌<◌, suc, ◌∷◌, ◌⊎◌, arith, zero, [],
  ◌∙◌, inr, if◌then◌else◌, refl, ◌==◌, ltb, ◌+◌, max,
}
use gpu_dead_node_detector.Health.{GpuHealthManager, thresholds}
use gpu_dead_node_detector.Health.Traces.{follow, Occurrence, own, replay, status_of-replay}
use gpu_dead_node_detector.Device.{DeviceId}
use gpu_dead_node_detector.Health.Invariant.{IsValid}

fine_by_passes : (p : Policy) (n : ℕ) → follow p (replicate n passed) fine ≡ fine
unfolding advance
fine_by_passes p zero = refl
fine_by_passes p (suc n) = fine_by_passes p n

cut_off_by_passes :
    (p : Policy) (r n k : ℕ)
    → p.recovery ≡ some r
    → k < r ⊎ (k ≡ 0)
    → follow p (replicate n passed) (cut_off k)
      ≡ (if n == 0 then cut_off k else if ltb (k + n) (max 1 r) then cut_off (k + n) else fine)
unfolding advance
cut_off_by_passes p r zero k e h = refl
cut_off_by_passes p r (suc n) k e h =
    ground (arith, cut_off_by_passes p r n (k + 1) e, fine_by_passes p n)

-- The status of a device that is isolated with no pass yet, after `n` passes.
abbrev pub after_passes : ℕ → ℕ → Status
after_passes recovery n = if ltb n (max 1 recovery) then cut_off n else fine

-- Where recovery is enabled in a valid manager, a device that is isolated with no pass yet, all of
-- whose events are passes, stays isolated for the first max 1 recovery_threshold - 1 of them and is
-- healthy from the next on. So a threshold of 0 restores after one pass, as 1 does: it does not disable
-- recovery where the flag is set.
pub passes_restore :
    (m : GpuHealthManager) (os : List Occurrence) (d : DeviceId) (n : ℕ)
    → IsValid m
    → m.recovery_enabled ≡ true
    → status_of m d ≡ cut_off 0
    → own d os ≡ replicate n passed
    → status_of (replay m os) d ≡ after_passes m.recovery_threshold n
passes_restore m os d n v enabled start events =
    status_of-replay m os d v
    ∙ rw (events, start)
        (cut_off_by_passes (policy (thresholds m)) m.recovery_threshold n 0 (rw enabled) (inr refl)
          ∙ ground arith)

abbrev pub IsCutOff : Status → Type 0
IsCutOff (cut_off n) = Unit
IsCutOff _ = ⊥

follow-IsCutOff :
    (p : Policy) (ks : List Kind) (s : Status)
    → p.recovery ≡ none
    → IsCutOff s
    → IsCutOff (follow p ks s)
unfolding advance
follow-IsCutOff p [] s e h = h
follow-IsCutOff p (k ∷ ks) s e h = follow-IsCutOff p ks (advance p k s) e (ground arith)

-- Where recovery is disabled, no sequence of events brings an isolated device back.
pub isolated_forever :
    (m : GpuHealthManager) (os : List Occurrence) (d : DeviceId)
    → IsValid m
    → m.recovery_enabled ≡ false
    → IsCutOff (status_of m d)
    → IsCutOff (status_of (replay m os) d)
isolated_forever m os d v disabled start =
    rw (status_of-replay m os d v)
      (follow-IsCutOff (policy (thresholds m)) (own d os) (status_of m d) (rw disabled) start)

abbrev is_completed : Kind → Bool
is_completed completed = true
is_completed _ = false

follow-condemned :
    (p : Policy) (ks : List Kind) → any is_completed ks ≡ false → follow p ks condemned ≡ condemned
unfolding advance
follow-condemned p [] h = refl
follow-condemned p (k ∷ ks) h = ground (arith, follow-condemned p ks)

-- An unhealthy device leaves its state only when an isolation of it is reported as completed: no
-- check, passed or failed, moves it.
pub unhealthy_until_completed :
    (m : GpuHealthManager) (os : List Occurrence) (d : DeviceId)
    → IsValid m
    → status_of m d ≡ condemned
    → any is_completed (own d os) ≡ false
    → status_of (replay m os) d ≡ condemned
unhealthy_until_completed m os d v start none_completed =
    status_of-replay m os d v
    ∙ rw start (follow-condemned (policy (thresholds m)) (own d os) none_completed)
