-- ===== src/Main/KernelLog.antt =====
-- From a line of the kernel log to an isolated device: the assembled scheduler over the NVIDIA
-- driver.
use gpu_dead_node_detector.Common.{
  any, contains, true, false, some, none, ◌∷◌, [], ◌≡◌, ok, ◌++◌, All, u32_mod, parse_number, ◌≢◌,
  ◌⊎◌, collect, List, ℕ, String, Bool, refl, is_ok, arith, ◌∙◌, ◌||◌, ap,
}
use gpu_dead_node_detector.Kube.Operator.Success.{IsUp}
use gpu_dead_node_detector.Main.EndToEnd.{execute_ok}
use gpu_dead_node_detector.Health.{healthy, suspected, isolated, device_key}
use gpu_dead_node_detector.Device.Nvidia.{
  xid_errors, xid_pattern, nvidia_interface, get_xid_errors, NvidiaDevice,
}
use gpu_dead_node_detector.Detection.Passive.{detect}
use gpu_dead_node_detector.Detection.Passive.Verdict.{shown_xids}
use gpu_dead_node_detector.Main.{assemble, passive_detector, Surroundings}
use gpu_dead_node_detector.Scheduler.Condemned.{l1_pass_isolates}
use gpu_dead_node_detector.Config.{Config}
use gpu_dead_node_detector.Device.System.{Match, Regex, Output}
use gpu_dead_node_detector.Kube.{Api}
use gpu_dead_node_detector.Device.{DeviceInterface, DeviceId}
use gpu_dead_node_detector.Scheduler.{DetectionScheduler, State, run_l1_detection}
use gpu_dead_node_detector.Health.Diagram.{state_of}

-- A match of the pattern whose number is listed as fatal, whatever its address is.
abbrev pub is_fatal_match : List ℕ → Match → Bool
is_fatal_match fatal_xids cap = elim (parse_number u32_mod (cap 2)) [
  | none ↦ false
  | some code ↦ contains fatal_xids code
]

fatal-xid_errors :
    (fatal_xids : List ℕ) (now index : ℕ) (matches : List Match)
    → any (λ x. contains fatal_xids x.code) (xid_errors now index matches)
      ≡ any (is_fatal_match fatal_xids) matches
unfolding xid_errors
fatal-xid_errors fatal_xids now index [] = refl
fatal-xid_errors fatal_xids now index (cap ∷ matches) =
    ground (arith, fatal-xid_errors fatal_xids now index matches)

module _ {W : Type 0} (c : Config) (name : String) (around : Surroundings W) (regex : Regex)
    (dev : NvidiaDevice W) (api : Api W) where
  abbrev pub device : DeviceInterface W
  device = nvidia_interface around.system regex dev

  abbrev scheduler : DetectionScheduler W
  scheduler = assemble c name around device api

  fatal_log :
      (d : DeviceId) (w : W) {output : Output} {v : W}
      → around.system.run "dmesg" ("-T" ∷ []) w ≡ (ok output, v)
      → output.success ≡ true
      → any (is_fatal_match c.health.fatal_xids) (regex.captures_iter xid_pattern output.stdout)
        ≡ true
      → any (λ x. contains c.health.fatal_xids x.code) (shown_xids (device.get_xid_errors d w).0)
        ≡ true
  unfolding nvidia_interface get_xid_errors
  fatal_log d w {output} {v} logged succeeds fatal =
      rw (logged, succeeds)
        (fatal-xid_errors c.health.fatal_xids (around.system.now v) d.index
            (regex.captures_iter xid_pattern output.stdout)
          ∙ fatal)

  l1_detector_is : scheduler.l1_detector ≡ passive_detector c device
  unfolding assemble
  l1_detector_is = ground arith

  or_true : (a b : Bool) → b ≡ true → (a || b) ≡ true
  or_true a b h = ground arith

  -- The world in which the kernel log is read for a device, after the devices before it.
  abbrev pub asked_in : List DeviceId → DeviceId → W → W
  asked_in before d w =
      let listed_in = (device.list_devices w).1 in
      (device.get_metrics d (collect (detect (passive_detector c device)) before listed_in).1).1

  -- A passive pass of the assembled scheduler over the NVIDIA driver, with an API server that
  -- answers. Let a listed device be healthy or suspected and no other listed device have its key. If
  -- the kernel log can be read when that device has its turn and has a line with a fatal XID, of that
  -- device or of any other, the pass ends without an error and the device is isolated.
  pub fatal_line_isolates :
      IsUp api
      → (before after : List DeviceId) (d : DeviceId) (st : State W) {output : Output} {v : W}
      → (device.list_devices st.world).0 ≡ ok (before ++ d ∷ after)
      → All (λ q. device_key q ≢ device_key d) before
      → All (λ q. device_key q ≢ device_key d) after
      → around.system.run "dmesg" ("-T" ∷ []) (asked_in before d st.world) ≡ (ok output, v)
      → output.success ≡ true
      → any (is_fatal_match c.health.fatal_xids) (regex.captures_iter xid_pattern output.stdout)
        ≡ true
      → (state_of st.manager d ≡ healthy) ⊎ (state_of st.manager d ≡ suspected)
      → let (answer, final) = run_l1_detection scheduler st in
        (answer ≡ ok tt) × (state_of final.manager d ≡ isolated)
  unfolding passive_detector
  fatal_line_isolates up before after d st listed others others' logged succeeds fatal was =
      l1_pass_isolates scheduler
        (λ done w. ap is_ok (execute_ok c name around device api up done w)) before after d st
        (rw l1_detector_is listed) others others'
        (rw l1_detector_is (or_true _ _ (fatal_log d _ logged succeeds fatal))) was
