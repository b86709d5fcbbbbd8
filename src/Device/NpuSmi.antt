-- ===== src/Device/NpuSmi.antt =====
-- src/rust/gdnd/gdnd-core/src/device/ascend.rs: what the driver reads from the table that
-- `npu-smi info` prints. The regular expressions are the source's, their engine is a parameter, and
-- so is the arithmetic on f64.
pub mod Table
use mathlib.Core.Option
use gpu_dead_node_detector.Common.{
  some, none, ◌∷◌, ◌*◌, ◌%◌, ◌-◌, ◌==◌, ℕ, String, Option, List, Bool, if◌then◌else◌, lines, get_or,
  [], parse_number, u64_mod, u32_mod,
}
use gpu_dead_node_detector.Device.System.{Match, Regex}

pub record NpuDeviceInfo : Type 0 where
  pub index : ℕ
  pub name : String
  pub health : String
  pub bus_id : Option String

pub record NpuMetricsInfo : Type 0 where
  pub temperature : ℕ
  pub power : ℕ
  pub aicore_util : ℕ
  pub hbm_used : ℕ
  pub hbm_total : ℕ

abbrev pub no_npu_metrics : NpuMetricsInfo
no_npu_metrics = record { temperature = 0; power = 0; aicore_util = 0; hbm_used = 0; hbm_total = 0 }

-- The two expressions on f64.
pub record Floats : Type 0 where
  -- `s.parse::<f64>().unwrap_or(0.0) as u32`
  pub whole_part : String → ℕ
  -- `((a as f64 / b as f64) * 100.0) as u32`
  pub percent : ℕ → ℕ → ℕ

abbrev pub device_pattern : String
device_pattern = "\\|\\s*(\\d+)\\s+(\\S+)\\s+\\|\\s*(\\w+)\\s+\\|"

abbrev pub chip_pattern : String
chip_pattern = "\\|\\s*(\\d+)\\s+\\|\\s*([0-9a-fA-F:\\.]+)\\s+\\|"

abbrev pub main_metrics_pattern : String
main_metrics_pattern = "\\|\\s*(\\d+)\\s+\\S+\\s+\\|\\s*\\w+\\s+\\|\\s*(\\d+\\.?\\d*)\\s+(\\d+)\\s+"

abbrev pub chip_metrics_pattern : String
chip_metrics_pattern =
    "\\|\\s*(\\d+)\\s+\\|\\s*[0-9a-fA-F:\\.]+\\s+\\|\\s*(\\d+)\\s+\\d+\\s*/\\s*\\d+\\s+(\\d+)\\s*/\\s*(\\d+)"

-- A device from the match of its line, with the bus of the line after it.
unfoldable pub npu_device : Match → Option Match → NpuDeviceInfo
npu_device cap chip = record {
  index = get_or (parse_number u32_mod (cap 1)) 0;
  name = cap 2;
  health = cap 3;
  bus_id = Option.map (λ c. c 2) chip;
}

module _ (regex : Regex) where
  -- The loop over the lines; a device takes the line after its own too.
  unfoldable pub devices_in : List String → List NpuDeviceInfo
  devices_in [] = []
  devices_in (line ∷ []) = elim (regex.captures device_pattern line) [
    | none ↦ []
    | some cap ↦ npu_device cap none ∷ []
  ]
  devices_in (line ∷ next ∷ rest) = elim (regex.captures device_pattern line) [
    | none ↦ devices_in (next ∷ rest)
    | some cap ↦ npu_device cap (regex.captures chip_pattern next) ∷ devices_in rest
  ]

  -- It never fails.
  unfoldable pub parse_device_list : String → List NpuDeviceInfo
  unfolding devices_in
  parse_device_list output = devices_in (lines output)

  -- `cap[1].parse::<u32>().unwrap_or(u32::MAX) == device_index`
  abbrev is_about : ℕ → Match → Bool
  is_about device_index cap = get_or (parse_number u32_mod (cap 1)) (u32_mod - 1) == device_index

  -- MB to bytes, in u64.
  abbrev pub megabytes : Option ℕ → ℕ
  megabytes n = get_or n 0 * 1024 * 1024 % u64_mod

  -- The device's main line, and its chip line.
  unfoldable pub main_line : Floats → ℕ → String → NpuMetricsInfo → NpuMetricsInfo
  main_line floats device_index line m = elim (regex.captures main_metrics_pattern line) [
    | none ↦ m
    | some cap ↦
        if is_about device_index cap
        then record m {
          power = floats.whole_part (cap 2);
          temperature = get_or (parse_number u32_mod (cap 3)) 0;
        }
        else m
  ]

  unfoldable pub chip_line : ℕ → String → NpuMetricsInfo → NpuMetricsInfo
  chip_line device_index line m = elim (regex.captures chip_metrics_pattern line) [
    | none ↦ m
    | some cap ↦
        if is_about device_index cap
        then record m {
          aicore_util = get_or (parse_number u32_mod (cap 2)) 0;
          hbm_used = megabytes (parse_number u64_mod (cap 3));
          hbm_total = megabytes (parse_number u64_mod (cap 4));
        }
        else m
  ]

  unfoldable pub metrics_in : Floats → ℕ → List String → NpuMetricsInfo → NpuMetricsInfo
  metrics_in floats device_index [] m = m
  metrics_in floats device_index (line ∷ rest) m =
      metrics_in floats device_index rest
        (chip_line device_index line (main_line floats device_index line m))

  unfoldable pub parse_device_metrics : Floats → String → ℕ → NpuMetricsInfo
  unfolding metrics_in
  parse_device_metrics floats output device_index =
      metrics_in floats device_index (lines output) no_npu_metrics
