-- ===== src/Device/System.antt =====
-- The operating system as the program meets it: processes, files and clocks. None of it is the
-- repository's code; it is a parameter of the components that use it.
use gpu_dead_node_detector.Device.{IoError}
use gpu_dead_node_detector.Common.{Bool, String, Option, List, ℕ, Effect, Result}

-- `std::process::Output`, its texts read by `from_utf8_lossy`.
pub record Output : Type 0 where
  pub success : Bool
  pub code : Option ℕ
  pub stdout : String
  pub stderr : String

pub record System (W : Type 0) : Type 0 where
  -- a command with its arguments, run to its end
  pub run : String → List String → Effect W IoError Output
  -- the same under a time limit; `none` where the limit has passed
  pub run_within : ℕ → String → List String → W → Option (Result IoError Output) × W
  pub read_to_string : String → Effect W IoError String
  pub path_exists : String → W → Bool × W
  -- the duration of the call that has just ended, and the date
  pub elapsed : W → ℕ
  pub now : W → ℕ

-- A match of the crate `regex`: the text of each of its groups.
abbrev pub Match : Type 0
Match = ℕ → String

-- `Regex::new(pattern)` with `captures_iter` or `captures` on a text: an engine that is not the
-- repository's code.
pub record Regex : Type 0 where
  pub captures_iter : String → String → List Match
  pub captures : String → String → Option Match
