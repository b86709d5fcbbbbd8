-- ===== src/Tests/Failing.antt =====
-- The loop over two devices of which the first never passes its active check.
use gpu_dead_node_detector.Scheduler.Failing.{failing_isolated, active_failures_forgotten}
use gpu_dead_node_detector.Common.{
  ◌∷◌, [], true, false, ◌++◌, ◌≡◌, refl, ok, none, pure, if◌then◌else◌, ℕ, ltb, arith, is_ok, ap,
  eq_iff, sym, lookup, ok-injective, ◌⊎◌, Option, some,
}
use gpu_dead_node_detector.Detection.Pcie
use gpu_dead_node_detector.Detection.Pcie.{new_pcie_detector}
use gpu_dead_node_detector.Scheduler.{
  l1_tick, l2_tick, l3_tick, shutdown_changed, run, State, DetectionScheduler,
}
use gpu_dead_node_detector.Health.{healthy, suspected, isolated, device_key, new_manager, get}
use gpu_dead_node_detector.Tests.Fixtures.{system, clock, gpu0, gpu1, hot, broken, Log}
use gpu_dead_node_detector.Device.{CheckResult, DeviceInterface, DeviceId, nvidia}
use gpu_dead_node_detector.Health.Diagram.{state_of}
use gpu_dead_node_detector.Scheduler.Reporting.{IsListed, pcie-Reports}
use gpu_dead_node_detector.Health.Invariant.{new_manager-IsValid}
use gpu_dead_node_detector.Scheduler.Rounds.{Reports}
use gpu_dead_node_detector.Health.Status.{failed}
use gpu_dead_node_detector.Scheduler.Forecast.{without_interval}

abbrev sound_check : CheckResult
sound_check = record { passed = true; duration = 3; error = none; exit_code = none }

-- With a temperature, every device is too hot or not.
abbrev pub heated : {W : Type 0} → ℕ → DeviceInterface W
heated temperature = record {
  list_devices = pure (gpu1 ∷ gpu0 ∷ []);
  get_metrics = λ d. pure (record hot { temperature = temperature });
  get_xid_errors = λ d. pure [];
  check_zombie_processes = λ d. pure [];
  run_active_check = λ d limit. pure (if ltb 0 d.index then sound_check else broken);
  device_type = nvidia;
  supports_pcie_test = true;
  run_pcie_test = λ d. pure (if ltb 0 d.index then sound_check else broken);
}

abbrev looping : ℕ → Option ℕ → DetectionScheduler Log
looping temperature l3_interval = record {
  l1_detector = record {
    device = heated temperature;
    temperature_threshold = 85;
    fatal_xids = 79 ∷ [];
  };
  l2_detector = record {
    device = heated temperature;
    gpu_check_path = "gpu-check";
    timeout = 300000000000;
  };
  l3_detector = some (new_pcie_detector (heated temperature));
  isolation_executor = record { execute = λ done w. (ok tt, w ++ "execute" ∷ []) };
  healer = none;
  l1_interval = 30;
  l2_interval = 300;
  l3_interval = l3_interval;
  system = system;
  clock = λ w. clock;
}

abbrev fresh_state : State Log
fresh_state = record { manager = new_manager 3 (79 ∷ []); updates = []; world = [] }

pub IsListed-heated :
    {W : Type 0} (temperature : ℕ) → IsListed (heated {W = W} temperature).list_devices gpu0
unfolding device_key
IsListed-heated temperature = record {
  before = gpu1 ∷ [];
  after = [];
  listed = λ w. refl;
  none_before = (ground (arith, eq_iff "GPU-b" "GPU-a"), tt);
  none_after = tt;
}

runs-heated :
    (temperature : ℕ) (x : DeviceId) (w : Log)
    → is_ok ((heated temperature).run_active_check x 300000000000 w).0 ≡ true
runs-heated temperature x w = refl

fails-heated :
    (temperature : ℕ) (w : Log) (c : CheckResult)
    → ((heated temperature).run_active_check gpu0 300000000000 w).0 ≡ ok c
    → c.passed ≡ false
fails-heated temperature w c e = ap (λ c. c.passed) (sym (ok-injective e))

test-heated :
    (temperature : ℕ) (w : Log) (c : CheckResult)
    → ((heated temperature).run_pcie_test gpu0 w).0 ≡ ok c
    → c.passed ≡ false
test-heated temperature w c e = ap (λ c. c.passed) (sym (ok-injective e))

tests-heated :
    (temperature : ℕ)
    → Reports (Pcie.detect_all (new_pcie_detector (heated {W = Log} temperature))) gpu0 failed
unfolding new_pcie_detector
tests-heated temperature =
    pcie-Reports (new_pcie_detector (heated temperature)) gpu0 false (IsListed-heated temperature)
      refl (λ x w. refl) (test-heated temperature)

-- The third failure isolates it; what follows the shutdown does not count.
failing_isolated_example :
    state_of
      (run
        (looping 95 (some 86400))
        (l1_tick ∷ l3_tick ∷ l2_tick ∷ shutdown_changed true ∷ l1_tick ∷ [])
        fresh_state).1.manager
      gpu0
    ≡ isolated
unfolding state_of new_manager get lookup
failing_isolated_example =
    failing_isolated (looping 95 (some 86400)) (λ done w. refl) gpu0 (IsListed-heated 95)
      (IsListed-heated 95) (runs-heated 95) (fails-heated 95)
      (l1_tick ∷ l3_tick ∷ l2_tick ∷ shutdown_changed true ∷ l1_tick ∷ []) fresh_state
      (new_manager-IsValid 3 (79 ∷ []) (omega arith)) refl (λ w. refl) (λ w. refl) true
      (refl, new_pcie_detector (heated 95), refl, tests-heated 95)

active_failures_forgotten_example :
    let final =
      (run
        (looping 40 none)
        (l2_tick ∷ l1_tick ∷ l2_tick ∷ l1_tick ∷ l2_tick ∷ [])
        fresh_state).1.manager in
    (state_of final gpu0 ≡ healthy) ⊎ (state_of final gpu0 ≡ suspected)
unfolding state_of new_manager get lookup
active_failures_forgotten_example =
    active_failures_forgotten (looping 40 none) (λ done w. refl) gpu0 (IsListed-heated 40)
      (IsListed-heated 40) (runs-heated 40) (fails-heated 40)
      (l2_tick ∷ l1_tick ∷ l2_tick ∷ l1_tick ∷ l2_tick ∷ []) fresh_state
      (new_manager-IsValid 3 (79 ∷ []) (omega arith)) refl (λ w. refl) false
      (without_interval (looping 40 none) gpu0 refl) refl
