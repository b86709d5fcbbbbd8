-- ===== src/Main/Endings.antt =====
-- Where a run of the assembled program ends.
use gpu_dead_node_detector.Scheduler
use gpu_dead_node_detector.Main.{
  run, connected, listed, configured_device, to_core_device_type, health_manager, assemble,
  Surroundings, looped, run_on,
}
use gpu_dead_node_detector.Config.{Config}
use gpu_dead_node_detector.Common.{
  List, none, ◌<◌, String, u32_mod, ◌≡◌, ◌&&◌, ltb, Bool-cases, false, inl, inr, refl, length,
  is_ok, true, any, ◌∷◌, some, [], ok, Bool, if◌then◌else◌, ◌∙◌, sym,
}
use gpu_dead_node_detector.Health.{with_recovery, new_manager}
use gpu_dead_node_detector.Device.{DeviceInterface, DeviceId}
use gpu_dead_node_detector.Scheduler.{
  Event, DetectionScheduler, State, l1_tick, l2_tick, l3_tick, shutdown_changed, on_event,
}
use gpu_dead_node_detector.Health.Invariant.{IsValid, with_recovery-IsValid, new_manager-IsValid}
use gpu_dead_node_detector.Scheduler.Refines.{run-IsValid}
use gpu_dead_node_detector.Metrics.{set_gpu_count}
use gpu_dead_node_detector.Kube.{Api}
use gpu_dead_node_detector.Device.Select.{create_device_interface}

-- A manager made from thresholds that fit a u32 is valid, and recovers devices exactly where recovery
-- is enabled with a positive threshold.
pub health_manager_lem :
    (c : Config)
    → c.health.failure_threshold < u32_mod
    → c.recovery.threshold < u32_mod
    → IsValid (health_manager c)
      × ((health_manager c).recovery_enabled ≡ (c.recovery.enabled && ltb 0 c.recovery.threshold))
unfolding health_manager with_recovery new_manager
health_manager_lem c f r = elim (Bool-cases c.recovery.enabled) [
  | inl on ↦
      rw on (unfold with_recovery in (with_recovery-IsValid _ _ c.health.fatal_xids f r, refl))
  | inr off ↦ rw off (unfold new_manager in (new_manager-IsValid _ c.health.fatal_xids f, refl))
]

-- The state that the loop starts in.
abbrev pub started : {W : Type 0} → Config → List DeviceId → W → State W
started c devices w = record {
  manager = health_manager c;
  updates = set_gpu_count (length devices) ∷ [];
  world = w;
}

-- Whether the loop is told to end, and the events until then.
abbrev pub is_ending : Event → Bool
is_ending (shutdown_changed b) = b
is_ending _ = false

abbrev pub until_shutdown : List Event → List Event
until_shutdown [] = []
until_shutdown (e ∷ events) = e ∷ (if is_ending e then [] else until_shutdown events)

ended-run :
    {W : Type 0} (s : DetectionScheduler W) (events : List Event) (st : State W)
    → (Scheduler.run s events st).0 ≡ any is_ending events
unfolding Scheduler.run
ended-run s [] st = refl
ended-run s (shutdown_changed true ∷ events) st = refl
ended-run s (shutdown_changed false ∷ events) st = ended-run s events st
ended-run s (l1_tick ∷ events) st = ended-run s events (on_event s l1_tick st)
ended-run s (l2_tick ∷ events) st = ended-run s events (on_event s l2_tick st)
ended-run s (l3_tick ∷ events) st = ended-run s events (on_event s l3_tick st)

run-until_shutdown :
    {W : Type 0} (s : DetectionScheduler W) (events : List Event) (st : State W)
    → Scheduler.run s (until_shutdown events) st ≡ Scheduler.run s events st
unfolding Scheduler.run
run-until_shutdown s [] st = refl
run-until_shutdown s (shutdown_changed true ∷ events) st = refl
run-until_shutdown s (shutdown_changed false ∷ events) st = run-until_shutdown s events st
run-until_shutdown s (l1_tick ∷ events) st = run-until_shutdown s events (on_event s l1_tick st)
run-until_shutdown s (l2_tick ∷ events) st = run-until_shutdown s events (on_event s l2_tick st)
run-until_shutdown s (l3_tick ∷ events) st = run-until_shutdown s events (on_event s l3_tick st)

run_lem :
    {W : Type 0} (c : Config) (around : Surroundings W) (events : List Event) (w : W)
    {name : String} {device : DeviceInterface W} {devices : List DeviceId} {api : Api W} {u v x : W}
    → c.node_name ≡ some name
    → create_device_interface around.drivers (to_core_device_type c.device_type) w ≡ (ok device, u)
    → device.list_devices u ≡ (ok devices, v)
    → around.connect v ≡ (ok api, x)
    → let (ended, st) =
        Scheduler.run (assemble c name around device api) events (started c devices x) in
      run c around events w ≡ (ok (ended, st), st.world)
unfolding run run_on configured_device listed connected looped
run_lem c around events w named created lists connects = rw (named, created, lists, connects)

-- With a node name, a device interface, a list of devices and a cluster: `run` returns exactly if the
-- shutdown channel comes to hold `true`, whatever else comes and whatever fails in the passes; it
-- then returns without an error, and what comes after that has no effect. In either case the
-- manager of the state that is reached is valid. The thresholds fit a u32, as their types say.
pub run_returns :
    {W : Type 0} (c : Config) (around : Surroundings W) (events : List Event) (w : W)
    {name : String} {device : DeviceInterface W} {devices : List DeviceId} {api : Api W} {u v x : W}
    → c.health.failure_threshold < u32_mod
    → c.recovery.threshold < u32_mod
    → c.node_name ≡ some name
    → create_device_interface around.drivers (to_core_device_type c.device_type) w ≡ (ok device, u)
    → device.list_devices u ≡ (ok devices, v)
    → around.connect v ≡ (ok api, x)
    → (st : State W) × (run c around events w ≡ (ok (any is_ending events, st), st.world))
      × (run c around (until_shutdown events) w ≡ run c around events w)
      × IsValid st.manager
run_returns c around events w {name} {device} {devices} {api} {u} {v} {x} f r named created lists
      connects =
    let s = assemble c name around device api in
    let start = started c devices x in
    let whole = run_lem c around events w named created lists connects in
    let short = run_lem c around (until_shutdown events) w named created lists connects in
    (
      (Scheduler.run s events start).1,
      rw (ended-run s events start) at whole,
      rw (run-until_shutdown s events start) at short ∙ sym whole,
      run-IsValid s events start (health_manager_lem c f r).0,
    )

-- Without a node name `run` fails before it touches anything.
pub run_nameless :
    {W : Type 0} (c : Config) (around : Surroundings W) (events : List Event) (w : W)
    → c.node_name ≡ none
    → (is_ok (run c around events w).0 ≡ false) × ((run c around events w).1 ≡ w)
unfolding run
run_nameless c around events w e = rw e (refl, refl)
