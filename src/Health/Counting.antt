-- ===== src/Health/Counting.antt =====
-- How many failures confirm a device unhealthy, and how many passes restore it.
use native.Mathlib.Nat.{zero-add, add-zero, add-suc, suc-add}
use gpu_dead_node_detector.Common.{
  ℕ, zero, suc, ◌+◌, max, ◌≡◌, refl, replicate, arith, ltb, ◌==◌, if◌then◌else◌, List, ◌≤◌, Bool,
  false, true, ◌∙◌, ◌<◌, ◌∷◌, ◌⊎◌, any, [], Bool-cases, inl, inr,
}
use gpu_dead_node_detector.Health.Status.{
  Status, fine, doubted, condemned, failed, Policy, advance, Kind, status_of, policy, fatal,
  cut_off, passed, completed,
}
use gpu_dead_node_detector.Health.Traces.{follow, Occurrence, own, replay, status_of-replay}
use gpu_dead_node_detector.Health.{GpuHealthManager, thresholds}
use gpu_dead_node_detector.Device.{DeviceId}
use gpu_dead_node_detector.Health.Invariant.{IsValid}

condemned_by_failures : (p : Policy) (n : ℕ) → follow p (replicate n failed) condemned ≡ condemned
unfolding advance
condemned_by_failures p zero = refl
condemned_by_failures p (suc n) = condemned_by_failures p n

doubted_by_failures :
    (p : Policy) (n k : ℕ)
    → follow p (replicate (suc n) failed) (doubted k)
      ≡ (if ltb (k + suc n) p.failure then doubted (k + suc n) else condemned)
unfolding advance
doubted_by_failures p zero k = ground arith
doubted_by_failures p (suc n) k =
    ground (arith, doubted_by_failures p n (k + 1), condemned_by_failures p (suc n))

-- `n` failures in a row of a healthy device.
abbrev pub after_failures : ℕ → ℕ → Status
after_failures failure n =
    if n == 0 then fine else if ltb n (max 2 failure) then doubted n else condemned

fine_by_failures :
    (p : Policy) (n : ℕ) → follow p (replicate n failed) fine ≡ after_failures p.failure n
unfolding advance
fine_by_failures p zero = refl
fine_by_failures p (suc zero) = ground arith
fine_by_failures p (suc (suc n)) = ground (arith, doubted_by_failures p n 1)

-- A healthy device of a valid manager, all of whose events in a sequence are non-fatal failures, is
-- then suspected while there were fewer than max 2 failure_threshold of them, and unhealthy from
-- that many on; the events of other devices in between do not matter.
pub failures_condemn :
    (m : GpuHealthManager) (os : List Occurrence) (d : DeviceId) (n : ℕ)
    → IsValid m
    → status_of m d ≡ fine
    → own d os ≡ replicate n failed
    → status_of (replay m os) d ≡ after_failures m.failure_threshold n
failures_condemn m os d n v start events =
    status_of-replay m os d v ∙ rw (events, start) (fine_by_failures (policy (thresholds m)) n)

abbrev is_fatal : Kind → Bool
is_fatal fatal = true
is_fatal _ = false

abbrev is_failed : Kind → Bool
is_failed failed = true
is_failed _ = false

abbrev failures : List Kind → ℕ
failures [] = 0
failures (k ∷ ks) = if is_failed k then suc (failures ks) else failures ks

-- Not confirmed unhealthy, with at most `n` failures in a row so far.
abbrev pub IsTrusted : ℕ → Status → Type 0
IsTrusted n fine = Unit
IsTrusted n (doubted k) = (1 ≤ k) × (k ≤ n)
IsTrusted n condemned = ⊥
IsTrusted n (cut_off k) = ⊥

advance-IsTrusted :
    (p : Policy) (k : Kind) (s : Status) (n : ℕ)
    → is_fatal k ≡ false
    → IsTrusted n s
    → n + 1 < max 2 p.failure ⊎ (is_failed k ≡ false)
    → IsTrusted (if is_failed k then suc n else n) (advance p k s)
unfolding advance
advance-IsTrusted p passed s n f t room = ground arith
advance-IsTrusted p failed s n f t room = ground arith
advance-IsTrusted p fatal s n f t room = cc
advance-IsTrusted p completed s n f t room = ground arith

follow-IsTrusted :
    (p : Policy) (ks : List Kind) (s : Status) (n : ℕ)
    → any is_fatal ks ≡ false
    → n + failures ks < max 2 p.failure
    → IsTrusted n s
    → IsTrusted (n + failures ks) (follow p ks s)
follow-IsTrusted p [] s n f room t = rw add-zero t
follow-IsTrusted p (k ∷ ks) s n f room t =
    let t' = advance-IsTrusted p k s n (ground arith) t (ground arith) in
    elim (Bool-cases (is_failed k)) [
      | inl e ↦
          rw (e, add-suc, ← suc-add)
            (follow-IsTrusted p ks (advance p k s) (suc n) (ground arith) (ground arith)
              (rw e at t'))
      | inr e ↦
          rw e (follow-IsTrusted p ks (advance p k s) n (ground arith) (ground arith) (rw e at t'))
    ]

-- A healthy device with no fatal event is not confirmed unhealthy, nor isolated, before
-- max 2 failure_threshold failures of its own, however they fall among passes.
pub never_hasty :
    (m : GpuHealthManager) (os : List Occurrence) (d : DeviceId)
    → IsValid m
    → status_of m d ≡ fine
    → any is_fatal (own d os) ≡ false
    → failures (own d os) < max 2 m.failure_threshold
    → IsTrusted (failures (own d os)) (status_of (replay m os) d)
never_hasty m os d v start quiet few =
    rw (status_of-replay m os d v, start)
      (rw zero-add at
        (follow-IsTrusted (policy (thresholds m)) (own d os) fine 0 quiet (omega arith) tt))
