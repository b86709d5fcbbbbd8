-- ===== src/Device/Process/Zombies.antt =====
-- Which processes are reported as waiting for a device.
-- The reads of the stat files, one after the other, each with the answer that it got.
use gpu_dead_node_detector.Device.System.{System}
use gpu_dead_node_detector.Device.Process.{waiting, shows_waiting}
use gpu_dead_node_detector.Common.{
  refl, List, ℕ, Result, ◌≡◌, map, String, keep, ◌∷◌, concat, decimal, [], arith,
}
use gpu_dead_node_detector.Device.{IoError}

abbrev pub reads : {W : Type 0} → System W → List ℕ → W → List (ℕ × Result IoError String)
reads system [] w = []
reads system (pid ∷ pids) w =
    let (stat, w') = system.read_to_string (concat ("/proc/" ∷ decimal pid ∷ "/stat" ∷ [])) w in
    (pid, stat) ∷ reads system pids w'

-- The reported processes are those whose stat file could be read and has "D" as its third field, in
-- the order of the list; every listed process is looked at.
pub waiting_lem :
    {W : Type 0} (system : System W) (pids : List ℕ) (w : W)
    → (waiting system pids w).0
      ≡ map (λ r. r.0) (keep (λ r. shows_waiting r.1) (reads system pids w))
unfolding waiting
waiting_lem system [] w = refl
waiting_lem system (pid ∷ pids) w =
    let after = (system.read_to_string (concat ("/proc/" ∷ decimal pid ∷ "/stat" ∷ [])) w).1 in
    ground (arith, waiting_lem system pids after)
