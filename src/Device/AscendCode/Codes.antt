-- ===== src/Device/AscendCode/Codes.antt =====
-- The error codes there and back.
use gpu_dead_node_detector.Device.AscendCode.{unknown, from_code, code, AscendErrorCode}
use gpu_dead_node_detector.Common.{ℕ, ◌≡◌, ◌≢◌, arith}

-- Every error code is read back from its number, and a number that is read as a known code is the
-- number of that code.
pub from_code-code : (e : AscendErrorCode) → from_code (code e) ≡ e
unfolding from_code code
from_code-code e = ground arith

pub code-from_code : (c : ℕ) → from_code c ≢ unknown → code (from_code c) ≡ c
unfolding from_code code
code-from_code c known = ground (arith, known)
