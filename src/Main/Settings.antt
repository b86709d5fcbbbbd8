-- ===== src/Main/Settings.antt =====
-- What the command line, the environment and the file make of the configuration.
use gpu_dead_node_detector.Main.CommandLine.{Cli}
use gpu_dead_node_detector.Main.Program.{
  accepted, load_config, main, overridden, run_chosen, started_with,
}
use gpu_dead_node_detector.Config.{Config, validate, with_node_name_from_env}
use gpu_dead_node_detector.Main.{Surroundings}
use gpu_dead_node_detector.Common.{
  Option, some, none, String, ◌≡◌, ok, ◌||◌, arith, List, Result, Result-cases, err, inr, inl, ap,
  ◌∙◌, Bool,
}
use gpu_dead_node_detector.Config.Rules.{IsUsable, validate_sound}
use gpu_dead_node_detector.Scheduler.{Event, State}

abbrev pub first : {A : Type 0} → Option A → Option A → Option A
first none b = b
first (some a) b = some a

accepted_is :
    (cli : Cli) (env : Option String) (loaded c : Config)
    → accepted cli env loaded ≡ ok c
    → (overridden cli env loaded ≡ c) × (validate c ≡ ok tt)
unfolding accepted
accepted_is cli env loaded c done = ground (arith, done)

overridden_is :
    (cli : Cli) (env : Option String) (loaded : Config)
    → ((overridden cli env loaded).node_name ≡ first cli.node_name (first loaded.node_name env))
      × ((overridden cli env loaded).dry_run ≡ (cli.dry_run || loaded.dry_run))
unfolding overridden with_node_name_from_env
overridden_is cli env loaded = ground arith

accepted_lem :
    (cli : Cli) (env : Option String) (loaded c : Config)
    → accepted cli env loaded ≡ ok c
    → IsUsable c
      × (c.node_name ≡ first cli.node_name (first loaded.node_name env))
      × (c.dry_run ≡ (cli.dry_run || loaded.dry_run))
accepted_lem cli env loaded c done =
    let (same, valid) = accepted_is cli env loaded c done in
    let facts = overridden_is cli env loaded in
    (validate_sound c valid, rw (← same) facts.0, rw (← same) facts.1)

first_twice :
    (flag env file : Option String)
    → first (first flag env) (first file env) ≡ first flag (first env file)
first_twice flag env file = ground arith

-- A configuration that `main` goes on with.
abbrev pub Chosen : Config → Cli → Option String → Option String → Config → Type 0
Chosen c cli flag env loaded =
    IsUsable c
    × (c.node_name ≡ first flag (first env loaded.node_name))
    × (c.dry_run ≡ (cli.dry_run || loaded.dry_run))

no_answer :
    {E A W : Type 0} (C : Type 0) {e : E} {a : A} {u v : W}
    → ◌≡◌ {A = Result E A × W} (err e, v) (ok a, u)
    → C
no_answer C h = absurd cc

module _ {W : Type 0} (cli : Cli) (flag env : Option String) (around : Surroundings W)
    (events : List Event) (w u : W) (answer : Option (Bool × State W)) where
  -- Where `main` ends without an error, the configuration could be loaded, and what it went on with is
  -- a usable configuration: its node name is that of the flag, else that of the environment
  -- variable, else the file's, and it is a dry run if either the command line or the file says so.
  pub main_lem :
      cli.node_name ≡ first flag env
      → main cli env around events w ≡ (ok answer, u)
      → (loaded : Config) × (c : Config) × (v : W) × (load_config cli around w ≡ (ok loaded, v))
        × Chosen c cli flag env loaded
        × (run_chosen cli around events c v ≡ (ok answer, u))
  unfolding main started_with
  main_lem named done =
      let start = load_config cli around w in
      elim (Result-cases start.0) [
        | inr (e, failed) ↦ no_answer _ (rw failed at done)
        | inl (loaded, read) ↦ elim (Result-cases (accepted cli env loaded)) [
          | inr (e, refused) ↦ no_answer _ (rw (read, refused) at done)
          | inl (c, chosen) ↦
              let (usable, name, dry) = accepted_lem cli env loaded c chosen in
              (
                loaded,
                c,
                start.1,
                ap (λ r. (r, start.1)) read,
                (
                  usable,
                  name
                      ∙ ap (λ n. first n (first loaded.node_name env)) named
                      ∙ first_twice flag env loaded.node_name,
                  dry,
                ),
                rw (read, chosen) at done,
              )
        ]
      ]
