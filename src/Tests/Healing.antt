-- ===== src/Tests/Healing.antt =====
-- The healer at work in a system where every command succeeds.
use gpu_dead_node_detector.Tests.Fixtures.{gpu1, system, healer, Log}
use gpu_dead_node_detector.Healing.{
  SelfHealer, heal, default_healing_config, HealingResult, kill_zombie_processes_action,
  gpu_soft_reset_action, driver_reload_action, available_actions, kill_all, HealingError,
  kill_zombie_processes, gpu_soft_reset, driver_reload, listed_pids,
}
use gpu_dead_node_detector.Common.{
  List, map, true, ◌≡◌, [], ok, ◌∷◌, refl, Result, err, lines, parse_number, trim, Effect, decimal,
}
use gpu_dead_node_detector.Device.{auto}
use gpu_dead_node_detector.Healing.Plan.{heal_follows_plan}
use gpu_dead_node_detector.Healing.Kill.{
  report_killed_lem, recording, call, killed_message, successes, Command,
}
use gpu_dead_node_detector.Healing.{report_killed, success_with_message}

abbrev dry : SelfHealer
dry = record healer { config = record healer.config { dry_run = true } }

abbrev automatic : SelfHealer
automatic = record healer { device_type = auto }

abbrev switched_off : SelfHealer
switched_off = record healer { config = default_healing_config }

abbrev results_of : Result HealingError (List HealingResult) → List HealingResult
results_of (ok results) = results
results_of (err e) = []

abbrev results : List HealingResult
results = results_of (heal system healer gpu1 []).0

heal_follows_plan_example :
    map (λ r. r.action) results
    ≡ kill_zombie_processes_action ∷ gpu_soft_reset_action 1 ∷ driver_reload_action ∷ []
unfolding available_actions lines parse_number trim
heal_follows_plan_example =
    heal_follows_plan system healer gpu1 []
      (unfold heal kill_zombie_processes gpu_soft_reset driver_reload listed_pids in refl)

abbrev killing : Effect (Log × List Command) HealingError HealingResult
killing = report_killed (recording system) (12 ∷ 34 ∷ [])

report_killed_lem_example :
    (map call (killing ([], [])).1.1 ≡ ("kill", "-9" ∷ "12" ∷ []) ∷ ("kill", "-9" ∷ "34" ∷ []) ∷ [])
    × ((killing ([], [])).1.0 ≡ "kill" ∷ "kill" ∷ [])
    × ((killing ([], [])).0 ≡ (report_killed system (12 ∷ 34 ∷ []) []).0)
    × ((killing ([], [])).0
        ≡ ok (
            success_with_message kill_zombie_processes_action
              (killed_message (successes (killing ([], [])).1.1) 2)))
unfolding report_killed kill_all decimal
report_killed_lem_example = report_killed_lem system (12 ∷ 34 ∷ []) []
