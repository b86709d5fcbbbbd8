-- ===== src/Tests/Conformance.antt =====
-- The unit tests in the source files of src/rust/gdnd: each test is the Boolean that its assertions
-- all hold, where an `unwrap` of nothing is false, and each file has one theorem that its tests hold.
-- Where a test says nothing of a clock, a path or a system, it is a constant or an argument.
mod Health
mod Healing
mod Detection
mod Device
mod Ascend
mod Program
mod CommandLine
use gpu_dead_node_detector.Common.{
  List, Bool, true, false, [], ◌∷◌, ◌&&◌, Option, none, some, Result, ok, err,
}

-- All assertions of a test, or all tests of a file.
abbrev pub asserts : List Bool → Bool
asserts [] = true
asserts (b ∷ bs) = b && asserts bs

-- `unwrap` of an option or of a result, then assertions.
abbrev pub unwrapped : {A : Type 0} → Option A → (A → List Bool) → Bool
unwrapped none f = false
unwrapped (some a) f = asserts (f a)

abbrev pub answered : {E A : Type 0} → Result E A → (A → List Bool) → Bool
answered (ok a) f = asserts (f a)
answered (err e) f = false
