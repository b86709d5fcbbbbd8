-- ===== src/Tests/Conformance/Ascend.antt =====
-- The tests of gdnd-core/src/device/ascend.rs. The engine of regular expressions answers for the
-- lines of the samples, and reads 112.5 as a number.
use gpu_dead_node_detector.Common.{uppercase_is}
use gpu_dead_node_detector.Common.{
  ◌∷◌, [], true, false, ◌==◌, ◌*◌, ◌&&◌, not, is_none, some, none, ◌≡◌, refl, ℕ, str_eq,
  if◌then◌else◌, concat, lines, parse_number, Bool, Option, String, List,
}
use gpu_dead_node_detector.Device.AscendCode.{
  AscendErrorCode, hbm_error, ai_core_hang, over_temperature, device_lost, unknown, from_code, code,
  is_fatal_code,
}
use gpu_dead_node_detector.Device.Ascend.{AscendDevice, is_error_fatal, health_to_error}
use gpu_dead_node_detector.Device.NpuSmi.{
  NpuDeviceInfo, Floats, parse_device_list, parse_device_metrics, device_pattern, chip_pattern,
  main_metrics_pattern, chip_metrics_pattern, devices_in, npu_device, main_line, chip_line,
  metrics_in,
}
use gpu_dead_node_detector.Device.System.{Regex, Match}
use gpu_dead_node_detector.Tests.Conformance.{asserts, unwrapped}

-- Codes are equal where their numbers are.
abbrev same_code : AscendErrorCode → AscendErrorCode → Bool
same_code a b = code a == code b

abbrev test_ascend_error_codes : Bool
test_ascend_error_codes = asserts (
    same_code (from_code 1001) hbm_error
    ∷ same_code (from_code 1002) ai_core_hang
    ∷ same_code (from_code 1007) device_lost
    ∷ same_code (from_code 9999) unknown
    ∷ is_fatal_code hbm_error
    ∷ is_fatal_code device_lost
    ∷ not (is_fatal_code over_temperature)
    ∷ (code hbm_error == 1001)
    ∷ (code ai_core_hang == 1002)
    ∷ (code device_lost == 1007)
    ∷ [])

abbrev device : AscendDevice
device = record {
  npu_smi_path = "/usr/local/bin/npu-smi";
  npu_check_path = "/usr/local/bin/npu-check";
  log_dir = "/var/log/npu/slog";
  fatal_error_codes = 1001 ∷ 1002 ∷ 1007 ∷ 1008 ∷ [];
}

abbrev same_numbers : List ℕ → List ℕ → Bool
same_numbers [] [] = true
same_numbers (a ∷ rest) (b ∷ others) = a == b && same_numbers rest others
same_numbers _ _ = false

abbrev test_fatal_error_codes_config : Bool
test_fatal_error_codes_config = asserts (
    is_error_fatal device 1001
    ∷ is_error_fatal device 1002
    ∷ is_error_fatal device 1007
    ∷ is_error_fatal device 1008
    ∷ not (is_error_fatal device 1003)
    ∷ not (is_error_fatal device 1005)
    ∷ same_numbers device.fatal_error_codes (1001 ∷ 1002 ∷ 1007 ∷ 1008 ∷ [])
    ∷ [])

abbrev rule : String
rule =
    "+===========================+===============+====================================================+\n"

abbrev npu0 : String
npu0 =
    "| 0       910B3             | OK            | 112.5       37         0 / 0                       |"

abbrev chip0 : String
chip0 =
    "| 0                         | 0000:C1:00.0  | 6           0 / 0              33551 / 65536       |"

abbrev npu1 : String
npu1 =
    "| 1       910B3             | OK            | 110.0       35         0 / 0                       |"

abbrev chip1 : String
chip1 =
    "| 1                         | 0000:C2:00.0  | 10          0 / 0              20000 / 65536       |"

abbrev groups : String → String → String → String → Match
groups a b c d n =
    if n == 1 then a else if n == 2 then b else if n == 3 then c else if n == 4 then d else ""

-- What the four patterns capture in a line of the samples.
abbrev captured : String → String → Option Match
captured pattern line =
    if str_eq pattern device_pattern
    then if str_eq line npu0
      then some (groups "0" "910B3" "OK" "")
      else if str_eq line npu1
      then some (groups "1" "910B3" "OK" "")
      else none
    else if str_eq pattern chip_pattern
    then if str_eq line chip0
      then some (groups "0" "0000:C1:00.0" "" "")
      else if str_eq line chip1
      then some (groups "1" "0000:C2:00.0" "" "")
      else none
    else if str_eq pattern main_metrics_pattern
    then if str_eq line npu0 then some (groups "0" "112.5" "37" "") else none
    else if str_eq pattern chip_metrics_pattern
    then if str_eq line chip0 then some (groups "0" "6" "33551" "65536") else none
    else none

abbrev engine : Regex
engine = record { captures_iter = λ pattern text. []; captures = captured }

abbrev floats : Floats
floats = record { whole_part = λ text. if str_eq text "112.5" then 112 else 0; percent = λ a b. 0 }

abbrev title : String
title =
    "+------------------------------------------------------------------------------------------------+\n| npu-smi 23.0.0                   Version: 23.0.0                                               |\n+---------------------------+---------------+----------------------------------------------------+\n| NPU     Name              | Health        | Power(W)    Temp(C)           Hugepages-Usage(page)|\n| Chip                      | Bus-Id        | AICore(%)   Memory-Usage(MB)   HBM-Usage(MB)       |\n"

abbrev sample_output : String
sample_output = concat (
    "\n" ∷ title ∷ rule ∷ npu0 ∷ "\n" ∷ chip0 ∷ "\n" ∷ rule ∷ npu1 ∷ "\n" ∷ chip1 ∷ "\n" ∷ rule
    ∷ [])

abbrev is_listed : NpuDeviceInfo → ℕ → String → Bool
is_listed d index bus_id =
    asserts ((d.index == index) ∷ unwrapped d.bus_id (λ id. str_eq id bus_id ∷ []) ∷ [])

abbrev two_devices : List NpuDeviceInfo → Bool
two_devices (a ∷ b ∷ []) = asserts (
    is_listed a 0 "0000:C1:00.0"
    ∷ str_eq a.name "910B3"
    ∷ str_eq a.health "OK"
    ∷ is_listed b 1 "0000:C2:00.0"
    ∷ [])
two_devices _ = false

abbrev test_parse_npu_smi_output : Bool
test_parse_npu_smi_output = two_devices (parse_device_list engine sample_output)

abbrev test_parse_device_metrics : Bool
test_parse_device_metrics =
    let metrics =
      parse_device_metrics engine floats (concat ("\n" ∷ npu0 ∷ "\n" ∷ chip0 ∷ "\n" ∷ [])) 0 in
    asserts (
      (metrics.temperature == 37)
      ∷ (metrics.power == 112)
      ∷ (metrics.aicore_util == 6)
      ∷ (metrics.hbm_used == 33551 * 1024 * 1024)
      ∷ (metrics.hbm_total == 65536 * 1024 * 1024)
      ∷ [])

abbrev test_health_status_mapping : Bool
test_health_status_mapping = asserts (
    is_none (health_to_error "OK")
    ∷ unwrapped (health_to_error "WARNING") (λ e. same_code e over_temperature ∷ [])
    ∷ unwrapped (health_to_error "ERROR") (λ e. same_code e device_lost ∷ [])
    ∷ unwrapped (health_to_error "FAULT") (λ e. same_code e device_lost ∷ [])
    ∷ [])

ascend_tests :
    asserts (
      test_ascend_error_codes ∷ test_fatal_error_codes_config ∷ test_parse_npu_smi_output
      ∷ test_parse_device_metrics ∷ test_health_status_mapping ∷ [])
    ≡ true
unfolding from_code code is_fatal_code is_error_fatal health_to_error parse_device_list devices_in
    npu_device parse_device_metrics metrics_in main_line chip_line lines parse_number concat
    uppercase_is
ascend_tests = refl
