-- ===== src/Device/Process.antt =====
-- What the two drivers, src/rust/gdnd/gdnd-core/src/device/nvidia.rs and ascend.rs, do alike with
-- processes: the check programs and the states under /proc. Log lines are left out.
pub mod Zombies
use gpu_dead_node_detector.Common.{
  List, Result, String, Option, ℕ, Effect, Bool, ◌∷◌, some, concat, ok, none, split_whitespace,
  if◌then◌else◌, decimal, err, false, [], str_eq,
}
use gpu_dead_node_detector.Device.System.{System, Output}
use gpu_dead_node_detector.Device.{
  IoError, DeviceId, success, DeviceError, failure, timeout, CheckResult, is_not_found, check_error,
  other, io_error,
}

-- The third field of /proc/<pid>/stat, where there is one.
unfoldable pub state_field : List String → Option String
state_field (a ∷ b ∷ c ∷ rest) = some c
state_field _ = none

-- `state == "D"` on the answer to the read of a stat file; a file that cannot be read shows nothing.
unfoldable pub shows_waiting : Result IoError String → Bool
unfolding state_field
shows_waiting (ok stat) = elim (state_field (split_whitespace stat)) [
  | none ↦ false
  | some state ↦ str_eq state "D"
]
shows_waiting (err e) = false

-- The verdict on a program that has run to its end.
unfoldable pub output_verdict : ℕ → Output → CheckResult
unfolding success failure
output_verdict duration output =
    if output.success then success duration else failure duration output.stderr output.code

-- The `match` on a program under a time limit; one that is not there counts as passed.
unfoldable pub within_verdict :
    ℕ → ℕ → Option (Result IoError Output) → Result DeviceError CheckResult
unfolding output_verdict success timeout
within_verdict duration limit none = ok (timeout limit)
within_verdict duration limit (some (ok output)) = ok (output_verdict duration output)
within_verdict duration limit (some (err e)) =
    if is_not_found e.kind then ok (success duration) else err (check_error e.text)

-- The `match` on the PCIe test program; one that is not there is an error.
unfoldable pub pcie_answer : String → ℕ → Result IoError Output → Result DeviceError CheckResult
unfolding output_verdict
pcie_answer missing duration (ok output) = ok (output_verdict duration output)
pcie_answer missing duration (err e) =
    if is_not_found e.kind then err (other missing) else err (io_error e)

module _ {W : Type 0} (system : System W) where
  -- The loop over the listed processes, with those found so far in front.
  unfoldable pub waiting : List ℕ → W → List ℕ × W
  waiting [] w = ([], w)
  waiting (pid ∷ pids) w =
      let (stat, w') = system.read_to_string (concat ("/proc/" ∷ decimal pid ∷ "/stat" ∷ [])) w in
      let (rest, w'') = waiting pids w' in (if shows_waiting stat then pid ∷ rest else rest, w'')

  unfoldable pub find_waiting : List ℕ → Effect W DeviceError (List ℕ)
  unfolding waiting
  find_waiting pids w = let (found, w') = waiting pids w in (ok found, w')

  -- `run_active_check` with the path of the program.
  unfoldable pub active_check : String → DeviceId → ℕ → Effect W DeviceError CheckResult
  active_check path device limit w =
      let (result, w') = system.run_within limit path ("-d" ∷ decimal device.index ∷ []) w in
      (within_verdict (system.elapsed w') limit result, w')

  -- `run_pcie_test` with the program, its arguments and the message where it is missing.
  unfoldable pub pcie_test : String → List String → String → Effect W DeviceError CheckResult
  pcie_test program args missing w =
      let (result, w') = system.run program args w in
      (pcie_answer missing (system.elapsed w') result, w')
