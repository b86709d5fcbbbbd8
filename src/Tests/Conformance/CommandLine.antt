-- ===== src/Tests/Conformance/CommandLine.antt =====
-- The tests of gdnd/src/cli.rs, as functions of the reader of arguments, which is clap's. They are
-- checked with a small reader that goes by the declared arguments, where no environment variable is
-- set.
use gpu_dead_node_detector.Common.{
  List, ◌∷◌, [], String, Bool, Option, none, some, get_or, str_eq, concat, any, ◌||◌, not, ◌≡◌,
  refl, true, if◌then◌else◌, false, is_none,
}
use gpu_dead_node_detector.Main.CommandLine.{Arg, arguments, Cli}
use gpu_dead_node_detector.Tests.Conformance.{asserts, unwrapped}

-- Whether a word is a flag of an argument.
abbrev is_short : Option String → String → Bool
is_short none word = false
is_short (some short) word = str_eq word (concat ("-" ∷ short ∷ []))

abbrev is_flag : Arg → String → Bool
is_flag a word = str_eq word (concat ("--" ∷ a.long ∷ [])) || is_short a.short word

-- The word behind the flag of an argument.
abbrev value_of : Arg → List String → Option String
value_of a [] = none
value_of a (flag ∷ []) = none
value_of a (flag ∷ value ∷ words) =
    let rest = value_of a (value ∷ words) in if is_flag a flag then some value else rest

-- The argument that fills a field.
abbrev declared : String → List Arg → (Arg → Option String) → Option String
declared field [] f = none
declared field (a ∷ declarations) f =
    let rest = declared field declarations f in if str_eq a.field field then f a else rest

abbrev or_default : Option String → Option String → Option String
or_default none default_value = default_value
or_default (some value) default_value = some value

abbrev text_of : String → List String → Option String
text_of field words = declared field arguments (λ a. or_default (value_of a words) a.default_value)

abbrev is_given : String → List String → Bool
is_given field words =
    not (
      is_none (declared field arguments (λ a. if any (is_flag a) words then some a.long else none)))

abbrev read : List String → Option Cli
read [] = none
read (program ∷ words) = some (record {
  config = get_or (text_of "config" words) "";
  node_name = text_of "node_name" words;
  log_level = get_or (text_of "log_level" words) "";
  log_json = is_given "log_json" words;
  dry_run = is_given "dry_run" words;
  once = is_given "once" words;
  debug = is_given "debug" words;
})

abbrev test_cli_defaults : (List String → Option Cli) → Bool
test_cli_defaults try_parse_from = unwrapped (try_parse_from ("gdnd" ∷ [])) (λ cli.
    str_eq cli.config "/etc/gdnd/config.yaml"
    ∷ str_eq cli.log_level "info"
    ∷ not cli.log_json
    ∷ not cli.dry_run
    ∷ not cli.once
    ∷ [])

abbrev test_cli_custom_config : (List String → Option Cli) → Bool
test_cli_custom_config try_parse_from =
    unwrapped (try_parse_from ("gdnd" ∷ "-c" ∷ "/custom/config.yaml" ∷ []))
      (λ cli. str_eq cli.config "/custom/config.yaml" ∷ [])

abbrev test_cli_dry_run : (List String → Option Cli) → Bool
test_cli_dry_run try_parse_from =
    unwrapped (try_parse_from ("gdnd" ∷ "--dry-run" ∷ [])) (λ cli. cli.dry_run ∷ [])

cli_tests :
    asserts (test_cli_defaults read ∷ test_cli_custom_config read ∷ test_cli_dry_run read ∷ [])
    ≡ true
unfolding concat
cli_tests = refl
