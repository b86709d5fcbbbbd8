-- ===== src/Healing/Kill.antt =====
-- Killing the listed processes, watched by a system that records its commands.
use mathlib.Core.List.{append-nil, append_assoc}
use gpu_dead_node_detector.Common.{
  [], ◌∷◌, refl, ℕ, ◌+◌, arith, ap, ◌∙◌, sym, String, Result, List, Bool, ◌++◌, decimal,
  if◌then◌else◌, concat, ◌≡◌, map, ok, false, result_cases, length,
}
use gpu_dead_node_detector.Device.System.{System, Output}
use gpu_dead_node_detector.Healing.{
  kill_all, report_killed, success_with_message, kill_zombie_processes_action, HealingError,
  HealingResult,
}
use gpu_dead_node_detector.Device.{IoError}

-- A command that was run, and whether it ran and succeeded.
pub record Command : Type 0 where
  pub name : String
  pub args : List String
  pub succeeded : Bool

abbrev has_succeeded : Result IoError Output → Bool
has_succeeded = result_cases (λ output. output.success) (λ e. false)

-- The same system, which also records each command that is run to its end.
abbrev pub recording : {W : Type 0} → System W → System (W × List Command)
recording system = record {
  run = λ name args u.
      let (r, w) = system.run name args u.0 in
      let done : Command = record { name = name; args = args; succeeded = has_succeeded r } in
      (r, (w, u.1 ++ done ∷ []));
  run_within =
      λ limit name args u. let (r, w) = system.run_within limit name args u.0 in (r, (w, u.1));
  read_to_string = λ path u. let (r, w) = system.read_to_string path u.0 in (r, (w, u.1));
  path_exists = λ path u. let (r, w) = system.path_exists path u.0 in (r, (w, u.1));
  elapsed = λ u. system.elapsed u.0;
  now = λ u. system.now u.0;
}

abbrev pub call : Command → String × List String
call c = (c.name, c.args)

abbrev pub kill_call : ℕ → String × List String
kill_call pid = ("kill", "-9" ∷ decimal pid ∷ [])

-- How many of the commands have succeeded.
abbrev pub successes : List Command → ℕ
successes [] = 0
successes (c ∷ cs) = if c.succeeded then successes cs + 1 else successes cs

abbrev pub killed_message : ℕ → ℕ → String
killed_message killed all =
    concat ("Killed " ∷ decimal killed ∷ "/" ∷ decimal all ∷ " zombie processes" ∷ [])

-- What a recorded run has added, where the count stood at `k`.
abbrev Adds : {W : Type 0} → System W → List ℕ → ℕ → W → List Command → List Command → Type 0
Adds system pids k w log new =
    (kill_all (recording system) pids k (w, log)
      ≡ (k + successes new, ((kill_all system pids k w).1, log ++ new)))
    × (map call new ≡ map kill_call pids)
    × ((kill_all system pids k w).0 ≡ k + successes new)

count_on : (b : Bool) (k n : ℕ) → (if b then k + 1 else k) + n ≡ k + (if b then n + 1 else n)
count_on b k n = ground arith

all_three :
    {A B C : Type 0} {a a' : A} {b b' : B} {c c' : C}
    → a ≡ a'
    → b ≡ b'
    → c ≡ c'
    → ◌≡◌ {A = A × (B × C)} (a, (b, c)) (a', (b', c'))
all_three e f g = rw (e, f, g) refl

plus_none : (k : ℕ) → k ≡ k + 0
plus_none k = omega arith

kill_all_recorded :
    {W : Type 0} (system : System W) (pids : List ℕ) (k : ℕ) (w : W) (log : List Command)
    → (new : List Command) × Adds system pids k w log new
unfolding kill_all
kill_all_recorded system [] k w log =
    ([], (all_three (plus_none k) refl (sym (append-nil log)), refl, plus_none k))
kill_all_recorded system (pid ∷ pids) k w log =
    let (r, w') = system.run "kill" ("-9" ∷ decimal pid ∷ []) w in
    let c : Command = record {
      name = "kill";
      args = "-9" ∷ decimal pid ∷ [];
      succeeded = has_succeeded r;
    } in
    let k' = if has_succeeded r then k + 1 else k in
    let (new, adds) = kill_all_recorded system pids k' w' (log ++ c ∷ []) in
    let (same, calls, count) = adds in
    let on = count_on (has_succeeded r) k (successes new) in
    (
      c ∷ new,
      (
        same ∙ all_three on refl (append_assoc log (c ∷ []) new),
        ap (λ cs. kill_call pid ∷ cs) calls,
        count ∙ on,
      ),
    )

-- In any system, recorded: the commands that are run are one `kill -9` for each listed process, in the
-- order of the list and whatever the answers, and nothing else; the answer is a success whose
-- message names the number of these commands that succeeded and the number of processes.
pub report_killed_lem :
    {W : Type 0} (system : System W) (pids : List ℕ) (w : W)
    → let (answer, (reached, log)) = report_killed (recording system) pids (w, []) in
      (map call log ≡ map kill_call pids)
      × (reached ≡ (report_killed system pids w).1)
      × (answer ≡ (report_killed system pids w).0)
      × (answer
          ≡ ok (
              success_with_message kill_zombie_processes_action
                (killed_message (successes log) (length pids))))
unfolding report_killed
report_killed_lem system pids w =
    let (new, adds) = kill_all_recorded system pids 0 w [] in
    let (same, calls, count) = adds in
    let none_before : 0 + successes new ≡ successes new = omega arith in
    let message : (n : ℕ) → Result HealingError HealingResult = λ n.
      ok (success_with_message kill_zombie_processes_action (killed_message n (length pids))) in
    rw (same, count) (calls, refl, refl, ap message none_before)
