-- ===== src/Main/Program.antt =====
-- src/rust/gdnd/gdnd/src/main.rs: `main`, from the arguments of the command line on, as clap has
-- filled them. The log, which it sets up first, and the task that waits for a signal are in Serving.
use gpu_dead_node_detector.Main.CommandLine.{Cli}
use gpu_dead_node_detector.Common.{
  none, some, ok, err, ◌>>=◌, ◌∷◌, true, [], pure, String, Effect, List, Option, if◌then◌else◌,
  Result, is_none, result_cases, with_error, concat, Bool,
}
use gpu_dead_node_detector.Detection.Passive
use gpu_dead_node_detector.Device.{context, from_device, Error}
use gpu_dead_node_detector.Main.{configured_device, passive_detector, run, Surroundings}
use gpu_dead_node_detector.Config.{
  with_node_name_from_env, validate, Config, debug_path, from_file, default_config,
}
use gpu_dead_node_detector.Scheduler.{Event, State}
use gpu_dead_node_detector.Detection.{DetectionResult}

-- The overrides of `main`, and its validation of the result.
unfoldable pub overridden : Cli → Option String → Config → Config
unfolding with_node_name_from_env
overridden cli env loaded =
    let c = if cli.dry_run then record loaded { dry_run = true } else loaded in
    with_node_name_from_env env
      (if is_none cli.node_name then c else record c { node_name = cli.node_name })

unfoldable pub accepted : Cli → Option String → Config → Result Error Config
unfolding overridden validate
accepted cli env loaded =
    let c = overridden cli env loaded in
    result_cases (λ done. ok c) (λ e. err (context "Invalid configuration" e)) (validate c)

module _ {W : Type 0} where
  -- The single pass of `--once`: the passive checks, whose results are logged.
  unfoldable pub run_single : Config → Surroundings W → Effect W Error (List DetectionResult)
  unfolding configured_device passive_detector
  run_single c around = do
    device ← configured_device c around
    with_error from_device (Passive.detect_all (passive_detector c device))

  -- The configuration of the file, or the defaults where there is no file.
  unfoldable pub load_config : Cli → Surroundings W → Effect W Error Config
  load_config cli around w =
      let (exists, v) = around.system.path_exists cli.config w in
      if exists
      then with_error
          (λ e. context (concat ("Failed to load config from " ∷ debug_path cli.config ∷ [])) e)
          (from_file around.system around.parse cli.config) v
      else (ok default_config, v)

  -- The end of `main`; the answer is that of `run`, if it was chosen.
  unfoldable pub run_chosen :
      Cli → Surroundings W → List Event → Config → Effect W Error (Option (Bool × State W))
  unfolding run_single run
  run_chosen cli around events c =
      if cli.once
      then (run_single c around >>= λ results. pure none)
      else (run c around events >>= λ reached. pure (some reached))

  -- `main`, from the loaded configuration on.
  unfoldable pub started_with :
      Cli
      → Option String
      → Surroundings W
      → List Event
      → Config
      → Effect W Error (Option (Bool × State W))
  unfolding accepted run_chosen
  started_with cli env around events loaded w =
      result_cases (λ c. run_chosen cli around events c w) (λ e. (err e, w))
        (accepted cli env loaded)

  -- `main`, from the arguments of the command line on.
  unfoldable pub main :
      Cli → Option String → Surroundings W → List Event → Effect W Error (Option (Bool × State W))
  unfolding load_config started_with
  main cli env around events = do c ← load_config cli around; started_with cli env around events c
