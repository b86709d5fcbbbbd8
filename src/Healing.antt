-- ===== src/Healing.antt =====
-- src/rust/gdnd/gdnd-core/src/healing.rs. The commands run in the system, a parameter; the
-- configured `timeout` is kept and used by nothing, as in the source.
pub mod Kill
pub mod Plan
use gpu_dead_node_detector.Device.{
  DeviceType, auto, nvidia, ascend, device_type_eq, IoError, DeviceId,
}
use gpu_dead_node_detector.Device.System.{Output, System}
use gpu_dead_node_detector.Common.{
  Bool, ℕ, true, String, false, Option, none, some, List, Effect, if◌then◌else◌, collect_some,
  with_error, ok, ◌∷◌, not, parse_number, decimal, concat, pure, ◌>>=◌, [], u32_mod, length, raise,
  trim, result_cases, is_empty, ◌&&◌, lines, ◌+◌, ◌++◌,
}

pub data HealingStrategy : Type 0 where
  conservative moderate aggressive : HealingStrategy

-- the derived `==`
unfoldable pub strategy_eq : HealingStrategy → HealingStrategy → Bool
strategy_eq conservative conservative = true
strategy_eq moderate moderate = true
strategy_eq aggressive aggressive = true
strategy_eq _ _ = false

pub data HealingAction : Type 0 where
  kill_process_action : ℕ → HealingAction
  kill_zombie_processes_action : HealingAction
  gpu_soft_reset_action : ℕ → HealingAction
  driver_reload_action : HealingAction

pub record HealingResult : Type 0 where
  pub action : HealingAction
  pub success : Bool
  pub message : Option String

-- `HealingResult::success`
unfoldable pub healed : HealingAction → HealingResult
healed action = record { action = action; success = true; message = none }

unfoldable pub success_with_message : HealingAction → String → HealingResult
success_with_message action message = record {
  action = action;
  success = true;
  message = some message;
}

-- `HealingResult::failure`
unfoldable pub not_healed : HealingAction → String → HealingResult
not_healed action message = record { action = action; success = false; message = some message }

pub data HealingError : Type 0 where
  disabled : HealingError
  unsupported_device : DeviceType → HealingError
  command_error : String → HealingError
  healing_io_error : IoError → HealingError

pub record HealingConfig : Type 0 where
  pub enabled : Bool
  pub strategy : HealingStrategy
  pub timeout : ℕ
  pub dry_run : Bool

abbrev pub default_healing_config : HealingConfig
default_healing_config = record {
  enabled = false;
  strategy = conservative;
  timeout = 30000000000;
  dry_run = false;
}

pub record SelfHealer : Type 0 where
  pub config : HealingConfig
  pub device_type : DeviceType

-- `SelfHealer::new`
abbrev pub new_healer : HealingConfig → DeviceType → SelfHealer
new_healer config device_type = record { config = config; device_type = device_type }

abbrev pub is_enabled : SelfHealer → Bool
is_enabled h = h.config.enabled

abbrev pub strategy : SelfHealer → HealingStrategy
strategy h = h.config.strategy

-- `self.device_type == DeviceType::Nvidia`
abbrev pub is_nvidia : SelfHealer → Bool
is_nvidia h = device_type_eq h.device_type nvidia

unfoldable pub available_actions : SelfHealer → List HealingAction
unfolding device_type_eq strategy_eq
available_actions h =
    if not h.config.enabled
    then []
    else if strategy_eq h.config.strategy conservative
    then kill_zombie_processes_action ∷ []
    else if strategy_eq h.config.strategy moderate
    then kill_zombie_processes_action ∷ (if is_nvidia h then gpu_soft_reset_action 0 ∷ [] else [])
    else kill_zombie_processes_action
      ∷ (if is_nvidia h then gpu_soft_reset_action 0 ∷ driver_reload_action ∷ [] else [])

abbrev pub list_zombies : String
list_zombies = "ps aux | grep -E 'D.*nvidia|D.*cuda|D.*gpu' | grep -v grep | awk '{print $2}'"

abbrev pub unload_modules : String
unload_modules = "modprobe -r nvidia_uvm nvidia_drm nvidia_modeset nvidia 2>/dev/null || true"

-- The process numbers in the answer of `list_zombies`.
unfoldable pub listed_pids : String → List ℕ
listed_pids stdout = collect_some (λ line. parse_number u32_mod (trim line)) (lines stdout)

module _ {W : Type 0} (system : System W) where
  -- A command whose failure to start ends the operation.
  abbrev pub command : String → List String → Effect W HealingError Output
  command name args = with_error healing_io_error (system.run name args)

  -- `kill -9` of each process in turn; answers how many were killed.
  unfoldable pub kill_all : List ℕ → ℕ → W → ℕ × W
  kill_all [] killed w = (killed, w)
  kill_all (pid ∷ pids) killed w =
      let (r, w') = system.run "kill" ("-9" ∷ decimal pid ∷ []) w in
      kill_all pids (if result_cases (λ o. o.success) (λ e. false) r then killed + 1 else killed) w'

  unfoldable pub report_killed : List ℕ → Effect W HealingError HealingResult
  unfolding kill_all success_with_message
  report_killed pids w =
      let (killed, w') = kill_all pids 0 w in
      (
        ok (
            success_with_message kill_zombie_processes_action (
              concat (
                "Killed "
                ∷ decimal killed
                ∷ "/"
                ∷ decimal (length pids)
                ∷ " zombie processes"
                ∷ []))),
        w',
      )

  unfoldable pub kill_zombie_processes : SelfHealer → DeviceId → Effect W HealingError HealingResult
  unfolding report_killed success_with_message not_healed listed_pids
  kill_zombie_processes h d =
      if h.config.dry_run
      then pure (success_with_message kill_zombie_processes_action "Dry run - no processes killed")
      else do
        output ← command "sh" ("-c" ∷ list_zombies ∷ [])
        if not output.success
            then pure (not_healed kill_zombie_processes_action "Failed to list zombie processes")
            else if is_empty (listed_pids output.stdout)
            then pure
                (success_with_message kill_zombie_processes_action "No zombie processes found")
            else report_killed (listed_pids output.stdout)

  unfoldable pub gpu_soft_reset : SelfHealer → DeviceId → Effect W HealingError HealingResult
  unfolding device_type_eq success_with_message not_healed
  gpu_soft_reset h d =
      let action = gpu_soft_reset_action d.index in
      if not (is_nvidia h)
      then raise (unsupported_device h.device_type)
      else if h.config.dry_run
      then pure (success_with_message action "Dry run - no reset performed")
      else do
        output ← command "nvidia-smi" ("-i" ∷ decimal d.index ∷ "-r" ∷ [])
        if output.success
            then pure (success_with_message action "GPU reset successful")
            else pure (not_healed action (concat ("GPU reset failed: " ∷ output.stderr ∷ [])))

  unfoldable pub driver_reload : SelfHealer → Effect W HealingError HealingResult
  unfolding device_type_eq success_with_message not_healed
  driver_reload h =
      if not (is_nvidia h)
      then raise (unsupported_device h.device_type)
      else if h.config.dry_run
      then pure (success_with_message driver_reload_action "Dry run - no driver reload performed")
      else do
        unload ← command "sh" ("-c" ∷ unload_modules ∷ [])
        reload ← command "modprobe" ("nvidia" ∷ [])
        if reload.success
            then pure (success_with_message driver_reload_action "Driver reload successful")
            else pure (
                not_healed driver_reload_action
                  (concat ("Driver reload failed: " ∷ reload.stderr ∷ [])))

  unfoldable pub kill_process : SelfHealer → ℕ → Effect W HealingError HealingResult
  unfolding healed success_with_message not_healed
  kill_process h pid =
      let action = kill_process_action pid in
      if h.config.dry_run
      then pure (success_with_message action "Dry run - process not killed")
      else do
        output ← command "kill" ("-9" ∷ decimal pid ∷ [])
        if output.success
            then pure (healed action)
            else pure (not_healed action (concat ("Failed to kill process: " ∷ output.stderr ∷ [])))

  -- A step of `heal` that pushes its result where it is to be taken.
  abbrev pub step_if :
      Bool → Effect W HealingError HealingResult → Effect W HealingError (List HealingResult)
  step_if taken action = if taken then (do result ← action; pure (result ∷ [])) else pure []

  unfoldable pub heal : SelfHealer → DeviceId → Effect W HealingError (List HealingResult)
  unfolding device_type_eq strategy_eq
  heal h d = if not h.config.enabled then raise disabled else do
    zombie_result ← kill_zombie_processes h d
    reset ←
        step_if (not (strategy_eq h.config.strategy conservative) && is_nvidia h)
          (gpu_soft_reset h d)
    reload ← step_if (strategy_eq h.config.strategy aggressive && is_nvidia h) (driver_reload h)
    pure (zombie_result ∷ reset ++ reload)
