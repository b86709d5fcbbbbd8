-- ===== src/Tests/Conformance/Healing.antt =====
-- The tests of gdnd-core/src/healing.rs.
use gpu_dead_node_detector.Common.{
  ◌∷◌, [], true, false, ◌==◌, not, is_empty, some, none, err, ◌≡◌, refl, has_part, length, ℕ,
  if◌then◌else◌, List, Bool, Result, suc, zero,
}
use gpu_dead_node_detector.Device.{DeviceId, nvidia, ascend, device_type_eq, DeviceType}
use gpu_dead_node_detector.Healing.{
  strategy_eq, conservative, moderate, aggressive, is_enabled, available_actions,
  default_healing_config, new_healer, kill_zombie_processes, gpu_soft_reset, HealingStrategy,
  SelfHealer, HealingAction, HealingError, kill_process_action, kill_zombie_processes_action,
  gpu_soft_reset_action, driver_reload_action, unsupported_device, success_with_message, not_healed,
  HealingResult,
}
use gpu_dead_node_detector.Tests.Fixtures.{system, Log}
use gpu_dead_node_detector.Tests.Conformance.{asserts, unwrapped, answered}

-- A number for each action, which the patterns of the tests tell apart.
abbrev kind_of_action : HealingAction → ℕ
kind_of_action kill_zombie_processes_action = 0
kind_of_action (gpu_soft_reset_action device_index) = if device_index == 0 then 1 else 2
kind_of_action driver_reload_action = 3
kind_of_action (kill_process_action pid) = 4

-- `matches!(actions[i], …)`, by the kind; false where there is no such action
abbrev matches : List HealingAction → ℕ → ℕ → Bool
matches [] i kind = false
matches (a ∷ actions) zero kind = kind_of_action a == kind
matches (a ∷ actions) (suc i) kind = matches actions i kind

abbrev enabled_healer : HealingStrategy → Bool → DeviceType → SelfHealer
enabled_healer strategy dry_run device_type =
    new_healer
      (record default_healing_config { enabled = true; strategy = strategy; dry_run = dry_run })
      device_type

abbrev test_healing_disabled_by_default : Bool
test_healing_disabled_by_default = asserts (
    not default_healing_config.enabled
    ∷ strategy_eq default_healing_config.strategy conservative
    ∷ [])

abbrev test_healer_disabled : Bool
test_healer_disabled =
    let healer = new_healer default_healing_config nvidia in
    asserts (not (is_enabled healer) ∷ is_empty (available_actions healer) ∷ [])

abbrev test_healer_conservative_actions : Bool
test_healer_conservative_actions =
    let actions = available_actions (enabled_healer conservative false nvidia) in
    asserts ((length actions == 1) ∷ matches actions 0 0 ∷ [])

abbrev test_healer_moderate_actions : Bool
test_healer_moderate_actions =
    let actions = available_actions (enabled_healer moderate false nvidia) in
    asserts ((length actions == 2) ∷ matches actions 0 0 ∷ matches actions 1 1 ∷ [])

abbrev test_healer_aggressive_actions : Bool
test_healer_aggressive_actions =
    let actions = available_actions (enabled_healer aggressive false nvidia) in
    asserts ((length actions == 3) ∷ matches actions 2 3 ∷ [])

abbrev test_healer_dry_run : Bool
test_healer_dry_run =
    let device : DeviceId = record { index = 0; uuid = some "GPU-TEST"; name = "Test GPU" } in
    let world : Log = [] in
    answered (kill_zombie_processes system (enabled_healer conservative true nvidia) device world).0
      (λ r. r.success ∷ unwrapped r.message (λ text. has_part text "Dry run" ∷ []) ∷ [])

abbrev is_unsupported : Result HealingError HealingResult → Bool
is_unsupported (err (unsupported_device device_type)) = true
is_unsupported _ = false

abbrev test_unsupported_device : Bool
test_unsupported_device =
    let device : DeviceId = record { index = 0; uuid = none; name = "Ascend 910" } in
    let world : Log = [] in
    is_unsupported (gpu_soft_reset system (enabled_healer moderate false ascend) device world).0

healing_tests :
    asserts (
      test_healing_disabled_by_default ∷ test_healer_disabled ∷ test_healer_conservative_actions
      ∷ test_healer_moderate_actions ∷ test_healer_aggressive_actions ∷ test_healer_dry_run
      ∷ test_unsupported_device ∷ [])
    ≡ true
unfolding strategy_eq available_actions kill_zombie_processes gpu_soft_reset success_with_message
    not_healed device_type_eq
healing_tests = refl
