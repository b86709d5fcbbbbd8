-- ===== src/Main/CommandLine.antt =====
-- src/rust/gdnd/gdnd/src/cli.rs: the arguments of the command line, as they are declared to clap, and
-- the record that clap fills. The reading of the arguments is clap's.
use gpu_dead_node_detector.Common.{Option, some, none, String, Bool, List, ◌∷◌, []}

-- An argument: its field, its flags without their dashes, the environment variable that is read where
-- the flag is missing, and the value where there is neither. A Boolean field is a switch.
pub record Arg : Type 0 where
  pub field : String
  pub short : Option String
  pub long : String
  pub env : Option String
  pub default_value : Option String

abbrev argument : String → String → Option String → Option String → Arg
argument field long env default_value = record {
  field = field;
  short = none;
  long = long;
  env = env;
  default_value = default_value;
}

abbrev pub arguments : List Arg
arguments =
    record (argument "config" "config" none (some "/etc/gdnd/config.yaml")) { short = some "c" }
    ∷ argument "node_name" "node-name" (some "NODE_NAME") none
    ∷ argument "log_level" "log-level" (some "GDND_LOG_LEVEL") (some "info")
    ∷ argument "log_json" "log-json" (some "GDND_LOG_JSON") (some "false")
    ∷ argument "dry_run" "dry-run" none (some "false")
    ∷ argument "once" "once" none none
    ∷ argument "debug" "debug" none (some "false")
    ∷ []

-- What clap fills: an argument is that of the flag, or else that of its environment variable, or else
-- its default value.
pub record Cli : Type 0 where
  pub config : String
  pub node_name : Option String
  pub log_level : String
  pub log_json : Bool
  pub dry_run : Bool
  pub once : Bool
  pub debug : Bool
