-- ===== src/Healing/Plan.antt =====
-- `heal` carries out the plan of `available_actions`, on the device that it is given.
use gpu_dead_node_detector.Healing.{
  available_actions, SelfHealer, HealingAction, HealingResult, kill_zombie_processes,
  gpu_soft_reset, driver_reload, heal, kill_process_action, gpu_soft_reset_action,
  kill_zombie_processes_action, driver_reload_action, disabled, HealingError, HealingStrategy,
  is_nvidia, strategy_eq, conservative, healing_io_error, success_with_message, aggressive,
  unsupported_device, command_error,
}
use gpu_dead_node_detector.Common.{
  ℕ, ◌≡◌, ok, List, false, true, arith, map, err, All, Result, if◌then◌else◌, not, ◌⊎◌, ◌&&◌, ◌∷◌,
  [], ◌++◌,
}
use gpu_dead_node_detector.Device.System.{System}
use gpu_dead_node_detector.Device.{DeviceId}

-- The plan names device 0 for a reset; `heal` resets the device at hand.
abbrev pub retarget : ℕ → HealingAction → HealingAction
retarget index (kill_process_action pid) = kill_process_action pid
retarget index kill_zombie_processes_action = kill_zombie_processes_action
retarget index (gpu_soft_reset_action _) = gpu_soft_reset_action index
retarget index driver_reload_action = driver_reload_action

-- A result is about this action.
abbrev Acts : HealingAction → Result HealingError HealingResult → Type 0
Acts action (ok r) = r.action ≡ action
Acts action (err e) = Unit

abbrev pub IsIo : HealingError → Type 0
IsIo disabled = ⊥
IsIo (unsupported_device t) = ⊥
IsIo (command_error s) = ⊥
IsIo (healing_io_error io) = Unit

-- If there is an error, it is an io error, where the healer's type is nvidia.
abbrev OnlyIo : Result HealingError HealingResult → Type 0
OnlyIo (ok r) = Unit
OnlyIo (err e) = IsIo e

module _ {W : Type 0} (system : System W) (h : SelfHealer) where
  kill_zombie_processes-Acts :
      (d : DeviceId) (w : W)
      → Acts kill_zombie_processes_action (kill_zombie_processes system h d w).0
  unfolding kill_zombie_processes
  kill_zombie_processes-Acts d w = ground arith

  gpu_soft_reset-Acts :
      (d : DeviceId) (w : W) → Acts (gpu_soft_reset_action d.index) (gpu_soft_reset system h d w).0
  unfolding gpu_soft_reset
  gpu_soft_reset-Acts d w = ground arith

  driver_reload-Acts : (w : W) → Acts driver_reload_action (driver_reload system h w).0
  unfolding driver_reload
  driver_reload-Acts w = ground arith

  kill_zombie_processes-OnlyIo :
      (d : DeviceId) (w : W) → OnlyIo (kill_zombie_processes system h d w).0
  unfolding kill_zombie_processes
  kill_zombie_processes-OnlyIo d w = ground arith

  gpu_soft_reset-OnlyIo :
      (d : DeviceId) (w : W) → is_nvidia h ≡ true → OnlyIo (gpu_soft_reset system h d w).0
  unfolding gpu_soft_reset
  gpu_soft_reset-OnlyIo d w nv = ground arith

  driver_reload-OnlyIo : (w : W) → is_nvidia h ≡ true → OnlyIo (driver_reload system h w).0
  unfolding driver_reload
  driver_reload-OnlyIo w nv = ground arith

  -- If `heal` succeeds, its results are those of the actions that `available_actions` lists, in that
  -- order, with the reset aimed at the given device.
  pub heal_follows_plan :
      (d : DeviceId) (w : W) {results : List HealingResult}
      → (heal system h d w).0 ≡ ok results
      → map (λ r. r.action) results ≡ map (retarget d.index) (available_actions h)
  unfolding heal available_actions
  heal_follows_plan d w {results} e =
      let killed = (kill_zombie_processes system h d w).1 in
      let reset = (gpu_soft_reset system h d killed).1 in
      ground (
        arith,
        kill_zombie_processes-Acts d w,
        gpu_soft_reset-Acts d killed,
        driver_reload-Acts killed,
        driver_reload-Acts reset,
      )

  -- With healing disabled `heal` fails and runs nothing.
  pub heal_disabled :
      (d : DeviceId) (w : W) → h.config.enabled ≡ false → heal system h d w ≡ (err disabled, w)
  unfolding heal
  heal_disabled d w off = rw off

  -- In a dry run no command is run, and every step is reported as a success.
  pub heal_dry :
      (d : DeviceId) (w : W)
      → h.config.enabled ≡ true
      → h.config.dry_run ≡ true
      → (results : List HealingResult) × (heal system h d w ≡ (ok results, w))
        × All (λ r. r.success ≡ true) results
  unfolding heal kill_zombie_processes gpu_soft_reset driver_reload
  heal_dry d w on dry =
      let reset =
        if not (strategy_eq h.config.strategy conservative) && is_nvidia h
        then success_with_message (gpu_soft_reset_action d.index) "Dry run - no reset performed"
          ∷ []
        else [] in
      let reload =
        if strategy_eq h.config.strategy aggressive && is_nvidia h
        then success_with_message driver_reload_action "Dry run - no driver reload performed" ∷ []
        else [] in
      (
        success_with_message kill_zombie_processes_action "Dry run - no processes killed" ∷ reset
            ++ reload,
        ground arith,
        ground arith,
      )

  -- If `heal` fails, healing is disabled, or a command could not be started: on no device does it
  -- come to an action that the device's type does not support.
  pub heal_errors :
      (d : DeviceId) (w : W) {e : HealingError}
      → (heal system h d w).0 ≡ err e
      → ((e ≡ disabled) × (h.config.enabled ≡ false)) ⊎ IsIo e
  unfolding heal
  heal_errors d w {e} failed =
      let killed = (kill_zombie_processes system h d w).1 in
      let reset = (gpu_soft_reset system h d killed).1 in
      ground (
        arith,
        kill_zombie_processes-OnlyIo d w,
        gpu_soft_reset-OnlyIo d killed,
        driver_reload-OnlyIo killed,
        driver_reload-OnlyIo reset,
      )

  -- Where the healer's type is not nvidia, as it is not for `auto`, every strategy is the
  -- conservative one.
  pub heal_only_nvidia :
      (d : DeviceId) (w : W) (strategy : HealingStrategy)
      → is_nvidia h ≡ false
      → heal system (record h { config = record h.config { strategy = strategy } }) d w
        ≡ heal system (record h { config = record h.config { strategy = conservative } }) d w
  unfolding heal kill_zombie_processes
  heal_only_nvidia d w strategy other = ground arith
