-- ===== src/Tests/Device.antt =====
-- The drivers at work, with an engine of regular expressions that knows a few lines.
use gpu_dead_node_detector.Tests.Fixtures.{gpu0, system, Log}
use gpu_dead_node_detector.Common.{
  none, some, ok, ◌∷◌, String, map_result, List, lines, pure, if◌then◌else◌, [], raise, ◌==◌,
  str_eq, true, parse_number, ◌&&◌, ◌≡◌, ℕ, refl, contains,
}
use gpu_dead_node_detector.Device.Nvml.{Nvml}
use gpu_dead_node_detector.Device.Nvidia.{NvidiaDevice, nvidia_interface}
use gpu_dead_node_detector.Device.System.{Regex, Match}
use gpu_dead_node_detector.Detection.Active.{L2ActiveDetector, detect}
use gpu_dead_node_detector.Device.AscendLogs.{LogFiles, scan_logs, parse_device_logs}
use gpu_dead_node_detector.Device.Nvidia.Checks.{shown, detect-nvidia_interface}
use gpu_dead_node_detector.Device.NpuSmi.Table.{Row, noise, entry, parse_device_list_lem}
use gpu_dead_node_detector.Device.NpuSmi.{
  npu_device, parse_device_list, device_pattern, chip_pattern,
}
use gpu_dead_node_detector.Device.AscendLogs.Tidy.{is_ascending, codes, parse_device_logs_lem}

abbrev no_nvml : Nvml Log
no_nvml = record {
  device_count = pure 2;
  device_by_index = λ i. pure i;
  name = λ d. pure "A100";
  uuid = λ d. raise "not supported";
  temperature = λ d. pure 40;
  utilization_rates = λ d. pure (10, 20);
  power_usage = λ d. pure 250000;
  power_management_limit = λ d. pure 400000;
  memory_info = λ d. raise "not supported";
  pcie_throughput = λ d counter. raise "not supported";
}

abbrev nvidia_device : NvidiaDevice Log
nvidia_device = record { nvml = no_nvml; gpu_check_path = "gpu-check" }

-- The groups of a match.
abbrev groups : String → String → String → Match
groups a b c n = if n == 1 then a else if n == 2 then b else if n == 3 then c else ""

abbrev head_line : String
head_line = "| NPU     Name    | Health  |"

abbrev npu_line : String
npu_line = "| 0       910B3   | OK      |"

abbrev chip_line : String
chip_line = "| 0               | 0000:C1:00.0 |"

abbrev engine : Regex
engine = record {
  captures_iter = λ pattern text.
      if str_eq pattern "ErrCode=(\\d+)"
      then groups "1007" "" "" ∷ groups "42" "" "" ∷ []
      else if str_eq pattern "\\[ERROR\\].*device.*lost"
      then groups "" "" "" ∷ []
      else groups "0000:01:00.0" "79" "" ∷ [];
  captures = λ pattern line.
      if str_eq line npu_line && str_eq pattern device_pattern
      then some (groups "0" "910B3" "OK")
      else if str_eq line chip_line && str_eq pattern chip_pattern
      then some (groups "0" "0000:C1:00.0" "")
      else none;
}

abbrev detector : L2ActiveDetector Log
detector = record {
  device = nvidia_interface system engine nvidia_device;
  gpu_check_path = "gpu-check";
  timeout = 5000000000;
}

detect-nvidia_interface_example : map_result shown (detect detector gpu0 []).0 ≡ ok (true, [])
detect-nvidia_interface_example =
    detect-nvidia_interface system engine nvidia_device 5000000000 gpu0 []

abbrev logs : LogFiles Log
logs = record {
  read_dir = λ path. pure (record { path = "device.log"; is_file = true; modified = some 3 } ∷ []);
}

parse_device_logs_lem_example :
    let found = (scan_logs system logs engine "/var/log/npu/slog" 0 []).0 in
    let reported = (parse_device_logs system logs engine "/var/log/npu/slog" 0 []).0 in
    (is_ascending (codes reported) ≡ true)
    × ((c : ℕ) → contains (codes reported) c ≡ contains (codes found) c)
parse_device_logs_lem_example = parse_device_logs_lem system logs engine "/var/log/npu/slog" 0 []

abbrev table : List Row
table =
    noise head_line
    ∷ entry npu_line chip_line (groups "0" "910B3" "OK") (some (groups "0" "0000:C1:00.0" ""))
    ∷ []

parse_device_list_lem_example :
    parse_device_list engine
      "| NPU     Name    | Health  |\n| 0       910B3   | OK      |\n| 0               | 0000:C1:00.0 |\n"
    ≡ record { index = 0; name = "910B3"; health = "OK"; bus_id = some "0000:C1:00.0" } ∷ []
unfolding lines npu_device parse_number
parse_device_list_lem_example =
    parse_device_list_lem engine
      "| NPU     Name    | Health  |\n| 0       910B3   | OK      |\n| 0               | 0000:C1:00.0 |\n"
      table refl (refl, (refl, refl, tt))
