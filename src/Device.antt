-- ===== src/Device.antt =====
-- src/rust/gdnd/gdnd-core/src/device/interface.rs: the device types, their errors, and the trait
-- `DeviceInterface` as a record of operations over a world. A `Duration` is a number of
-- nanoseconds, a `DateTime` a number.
pub mod System
pub mod Process
pub mod Nvml
pub mod Nvidia
pub mod AscendCode
pub mod NpuSmi
pub mod AscendLogs
pub mod Ascend
pub mod Mock
pub mod Select
use gpu_dead_node_detector.Common.{
  ℕ, zero, String, Bool, true, false, Option, none, some, List, [], ◌∷◌, contains, Effect, raise,
  decimal, concat,
}

pub data DeviceType : Type 0 where
  auto nvidia ascend : DeviceType

-- the derived `==`
unfoldable pub device_type_eq : DeviceType → DeviceType → Bool
device_type_eq auto auto = true
device_type_eq nvidia nvidia = true
device_type_eq ascend ascend = true
device_type_eq _ _ = false

-- `Display`
unfoldable pub device_type_text : DeviceType → String
device_type_text auto = "auto"
device_type_text nvidia = "nvidia"
device_type_text ascend = "ascend"

pub record DeviceId : Type 0 where
  pub index : ℕ
  pub uuid : Option String
  pub name : String

-- `Display`
unfoldable pub display : DeviceId → String
display d = concat ("GPU" ∷ decimal d.index ∷ [])

pub record EccErrors : Type 0 where
  pub single_bit : ℕ
  pub double_bit : ℕ

abbrev pub no_ecc_errors : EccErrors
no_ecc_errors = record { single_bit = 0; double_bit = 0 }

pub record DeviceMetrics : Type 0 where
  pub temperature : ℕ
  pub gpu_utilization : ℕ
  pub memory_utilization : ℕ
  pub power_usage : ℕ
  pub power_limit : ℕ
  pub memory_total : ℕ
  pub memory_used : ℕ
  pub memory_free : ℕ
  pub pcie_tx : Option ℕ
  pub pcie_rx : Option ℕ
  pub ecc_errors : EccErrors
  pub timestamp : ℕ

pub record XidError : Type 0 where
  pub code : ℕ
  pub message : String
  pub timestamp : ℕ
  pub device_index : ℕ

unfoldable pub is_fatal : XidError → List ℕ → Bool
is_fatal x fatal_xids = contains fatal_xids x.code

-- An exit code is an i32 or none: the model keeps its bit pattern.
pub record CheckResult : Type 0 where
  pub passed : Bool
  pub duration : ℕ
  pub error : Option String
  pub exit_code : Option ℕ

unfoldable pub success : ℕ → CheckResult
success duration = record { passed = true; duration = duration; error = none; exit_code = some 0 }

unfoldable pub failure : ℕ → String → Option ℕ → CheckResult
failure duration error exit_code = record {
  passed = false;
  duration = duration;
  error = some error;
  exit_code = exit_code;
}

unfoldable pub timeout : ℕ → CheckResult
timeout limit = record {
  passed = false;
  duration = limit;
  error = some "Check timed out";
  exit_code = none;
}

-- `std::io::Error`, by its kind and its text.
pub data IoKind : Type 0 where
  not_found other_kind : IoKind

-- `e.kind() == ErrorKind::NotFound`
abbrev pub is_not_found : IoKind → Bool
is_not_found not_found = true
is_not_found other_kind = false

pub record IoError : Type 0 where
  pub kind : IoKind
  pub text : String

pub data DeviceError : Type 0 where
  nvml_init_error : String → DeviceError
  device_not_found : String → DeviceError
  query_error : String → DeviceError
  check_error : String → DeviceError
  timed_out : ℕ → DeviceError
  io_error : IoError → DeviceError
  other : String → DeviceError

-- `anyhow::Error`: a message, an error with context, or an error that `?` has converted.
pub data Error : Type 0 where
  message : String → Error
  context : String → Error → Error
  from_device : DeviceError → Error
  from_io : IoError → Error

-- The trait. An operation reads and changes the world that it runs in: the driver, the kernel's
-- logs, the processes. Its two default methods stand below it.
pub record DeviceInterface (W : Type 0) : Type 0 where
  pub list_devices : Effect W DeviceError (List DeviceId)
  pub get_metrics : DeviceId → Effect W DeviceError DeviceMetrics
  pub get_xid_errors : DeviceId → Effect W DeviceError (List XidError)
  pub check_zombie_processes : DeviceId → Effect W DeviceError (List ℕ)
  pub run_active_check : DeviceId → ℕ → Effect W DeviceError CheckResult
  pub device_type : DeviceType
  pub supports_pcie_test : Bool
  pub run_pcie_test : DeviceId → Effect W DeviceError CheckResult

-- the trait's default methods
unfoldable pub default_supports_pcie_test : Bool
default_supports_pcie_test = false

unfoldable pub default_run_pcie_test : {W : Type 0} → DeviceId → Effect W DeviceError CheckResult
default_run_pcie_test device = raise (other "PCIe test not supported")
