-- ===== src/Main/Containment.antt =====
-- What the manager says of a device and what the cluster says of its node, in the assembled program.
use gpu_dead_node_detector.Detection.Passive
use gpu_dead_node_detector.Detection.Active
use gpu_dead_node_detector.Detection.Pcie
use gpu_dead_node_detector.Scheduler.{process_result, judge, run}
use gpu_dead_node_detector.Scheduler.Keeps.{run_keeps}
use gpu_dead_node_detector.Common.{none, if◌then◌else◌, refl, Bool}
use gpu_dead_node_detector.Detection.Pcie.{new_pcie_detector}
use gpu_dead_node_detector.Health
use gpu_dead_node_detector.Health.{
  isolated, gpu_health_taint, GpuHealthManager, unhealthy, event_of, isolation_actions,
}
use gpu_dead_node_detector.Common.{
  true, false, ◌∷◌, [], inl, inr, List, String, ◌≡◌, Bool-cases, any-append, str_eq, ◌∙◌, eq_refl,
  some, arith, some-injective, ◌≢◌, ap, sym,
}
use gpu_dead_node_detector.Kube.{Node, Taint, is_cordoned, taints_of, Api, Server}
use gpu_dead_node_detector.Config.{Config}
use gpu_dead_node_detector.Kube.Client.Effects.{has_taint, with_taint}
use gpu_dead_node_detector.Main.{
  Surroundings, assemble, passive_detector, active_detector, node_operator, to_k8s_isolation_config,
}
use gpu_dead_node_detector.Device.{DeviceInterface, DeviceId}
use gpu_dead_node_detector.Scheduler.{
  DetectionScheduler, new_scheduler, with_healer, with_l3, Event, State, attempt_healing,
}
use gpu_dead_node_detector.Detection.Pcie.{L3PcieDetector}
use gpu_dead_node_detector.Kube.Operator.Success.{IsUp}
use gpu_dead_node_detector.Detection.Keeps.{DriverKeeps, passive-Keeps, active-Keeps, pcie-Keeps}
use gpu_dead_node_detector.Detection.{DetectionResult}
use gpu_dead_node_detector.Health.Diagram.{state_of, findings_of}
use gpu_dead_node_detector.Scheduler.Isolation.{falls-cases, only_recorded}
use gpu_dead_node_detector.Health.Checks.{isolated_before-process_result, in_service-process_result}
use gpu_dead_node_detector.Main.EndToEnd.{actions-process_result, execute_ok}
use gpu_dead_node_detector.Kube.Operator.{execute_actions}
use gpu_dead_node_detector.Main.DryRun.{execute_assembled}
use gpu_dead_node_detector.Kube.Operator.Isolation.{isolation_applied, failed_taint}
use gpu_dead_node_detector.Scheduler.Outcome.{world-process_result}

-- A node that new pods are kept off: cordoned, and with the taint of the isolation.
abbrev pub IsClosed : Node → Type 0
IsClosed n = (is_cordoned n ≡ true) × (has_taint gpu_health_taint (taints_of n) ≡ true)

-- Every isolated device has a closed node, the one of this name.
abbrev pub IsContained :
    {W : Type 0} {api : Api W} → Server api → String → GpuHealthManager → W → Type 0
IsContained server name m w =
    (d : DeviceId) → state_of m d ≡ isolated → IsClosed (server.stored name w)

has_taint-with_taint : (t : Taint) (ts : List Taint) → has_taint t.key (with_taint t ts) ≡ true
has_taint-with_taint t ts = elim (Bool-cases (has_taint t.key ts)) [
  | inl there ↦ rw there there
  | inr absent ↦
      rw absent
        (any-append (λ u. str_eq u.key t.key) ts (t ∷ []) ∙ rw (eq_refl t.key) (ground arith))
]

only_choice : {A : Type 0} (b : Bool) (x y : A) → (if b then some x else none) ≡ some y → x ≡ y
only_choice true x y e = some-injective x y e
only_choice false x y e = absurd cc

module _ {W : Type 0} (c : Config) (name : String) (around : Surroundings W)
    (device : DeviceInterface W) (api : Api W) where
  abbrev scheduler : DetectionScheduler W
  scheduler = assemble c name around device api

  pub detectors :
      (scheduler.l1_detector ≡ passive_detector c device)
      × (scheduler.l2_detector ≡ active_detector c device)
      × (scheduler.l3_detector ≡ (if c.l3_enabled then some (new_pcie_detector device) else none))
      × (scheduler.l3_interval ≡ (if c.l3_enabled then some c.l3_interval else none))
  unfolding assemble new_scheduler with_healer with_l3
  detectors = elim (Bool-cases c.healing.enabled) [
    | inl h ↦ elim (Bool-cases c.l3_enabled) [
      | inl l ↦ rw (h, l) (refl, refl, refl, refl)
      | inr l ↦ rw (h, l) (refl, refl, refl, refl)
    ]
    | inr h ↦ elim (Bool-cases c.l3_enabled) [
      | inl l ↦ rw (h, l) (refl, refl, refl, refl)
      | inr l ↦ rw (h, l) (refl, refl, refl, refl)
    ]
  ]

  l3_detector_lem :
      (det : L3PcieDetector W) → scheduler.l3_detector ≡ some det → new_pcie_detector device ≡ det
  l3_detector_lem det e =
      only_choice c.l3_enabled (new_pcie_detector device) det (sym detectors.2 ∙ e)

module _ {W : Type 0} (c : Config) (name : String) (around : Surroundings W)
    (device : DeviceInterface W) (api : Api W) (server : Server api) (wet : c.dry_run ≡ false)
    (cordons : c.isolation.cordon ≡ true) (up : IsUp api)
    (drives : DriverKeeps (λ w. IsClosed (server.stored name w)) device) where
  open server use {stored}

  abbrev assembled : DetectionScheduler W
  assembled = assemble c name around device api

  -- The isolation of a device closes the node.
  condemned_closes :
      (r : DetectionResult) (st : State W)
      → let now = (Health.process_result st.manager (assembled.clock st.world) r).0 in
        state_of st.manager r.device ≢ unhealthy
        → state_of now r.device ≡ unhealthy
        → IsClosed (stored name (process_result assembled r st).1.world)
  unfolding node_operator to_k8s_isolation_config
  condemned_closes r st was is =
      let op = node_operator c name api in
      let m = st.manager in
      let clock = assembled.clock st.world in
      let findings = findings_of (event_of r) in
      let healed = (attempt_healing assembled r.device (judge assembled r st).1).world in
      let report = (Health.process_result m clock r).1 in
      let actions =
        actions-process_result m clock r (in_service-process_result m clock r was is) is in
      let runs : assembled.isolation_executor.execute report healed
          ≡ execute_actions op (isolation_actions r.device findings) healed =
        execute_assembled c name around device api report healed
        ∙ ap (λ a. execute_actions op a healed) actions in
      let (cordoned, tainted) =
        isolation_applied op server r.device findings healed wet
          (ap (λ p. p.0) (sym runs) ∙ execute_ok c name around device api up report healed) in
      let left = world-process_result assembled r st was is ∙ ap (λ p. p.1) runs in
      rw left (
        cordoned ∙ rw cordons refl,
        ap (has_taint gpu_health_taint) tainted
            ∙ has_taint-with_taint failed_taint (taints_of (stored name healed)),
      )

  result-IsContained :
      (r : DetectionResult) (st : State W)
      → IsContained server name st.manager st.world
      → let final = (process_result assembled r st).1 in
        IsContained server name final.manager final.world
  result-IsContained r st contained =
      let m = st.manager in
      let clock = assembled.clock st.world in
      elim (falls-cases (state_of m r.device)
        (state_of (Health.process_result m clock r).0 r.device)) [
          | inl (was, is) ↦ λ d isolated_now. condemned_closes r st was is
          | inr stays ↦
              let (answer, manager, world) = only_recorded assembled r st stays in
              λ d isolated_now. rw world (
                contained d (
                  isolated_before-process_result m clock r d
                    (ap (λ n. state_of n d) (sym manager) ∙ isolated_now)))
        ]

  result-IsClosed :
      (r : DetectionResult) (st : State W)
      → IsClosed (stored name st.world)
      → IsClosed (stored name (process_result assembled r st).1.world)
  result-IsClosed r st closed =
      let now = (Health.process_result st.manager (assembled.clock st.world) r).0 in
      elim (falls-cases (state_of st.manager r.device) (state_of now r.device)) [
        | inl (was, is) ↦ condemned_closes r st was is
        | inr stays ↦ rw (only_recorded assembled r st stays).2 closed
      ]

  -- The detectors leave the node closed.
  l1-IsClosed :
      (w : W)
      → IsClosed (stored name w)
      → IsClosed (stored name (Passive.detect_all assembled.l1_detector w).1)
  unfolding passive_detector
  l1-IsClosed w closed =
      rw (detectors c name around device api).0
        (passive-Keeps (λ w. IsClosed (stored name w)) (passive_detector c device) drives w closed)

  l2-IsClosed :
      (w : W)
      → IsClosed (stored name w)
      → IsClosed (stored name (Active.detect_all assembled.l2_detector w).1)
  unfolding active_detector
  l2-IsClosed w closed =
      rw (detectors c name around device api).1
        (active-Keeps (λ w. IsClosed (stored name w)) (active_detector c device) drives w closed)

  l3-IsClosed :
      (det : L3PcieDetector W)
      → assembled.l3_detector ≡ some det
      → (w : W) → IsClosed (stored name w)
      → IsClosed (stored name (Pcie.detect_all det w).1)
  unfolding new_pcie_detector
  l3-IsClosed det e w closed =
      rw⁻¹ (l3_detector_lem c name around device api det e)
        (pcie-Keeps (λ w. IsClosed (stored name w)) (new_pcie_detector device) drives w closed)

  -- A closed node stays closed.
  pub run-IsClosed :
      (events : List Event) (st : State W)
      → IsClosed (stored name st.world)
      → IsClosed (stored name (run assembled events st).1.world)
  run-IsClosed events st closed =
      run_keeps assembled (λ m w. IsClosed (stored name w)) result-IsClosed
        (λ m w p. l1-IsClosed w p) (λ m w p. l2-IsClosed w p) (λ det e m w p. l3-IsClosed det e w p)
        events st closed

  -- In the assembled program, outside a dry run, with cordoning switched on and an API server that
  -- answers: if every isolated device has a closed node at the start of the loop, then at its end too,
  -- whatever comes in it. As long as the manager counts any device as isolated, the stored node is
  -- cordoned and has a taint with the key nvidia.com/gpu-health, provided that no operation of the
  -- driver takes a closed node from the cluster.
  pub run-IsContained :
      (events : List Event) (st : State W)
      → IsContained server name st.manager st.world
      → let final = (run assembled events st).1 in IsContained server name final.manager final.world
  run-IsContained events st contained =
      run_keeps assembled (IsContained server name) result-IsContained
        (λ m w g d is. l1-IsClosed w (g d is)) (λ m w g d is. l2-IsClosed w (g d is))
        (λ det e m w g d is. l3-IsClosed det e w (g d is)) events st contained
