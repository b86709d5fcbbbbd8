-- ===== src/Tests.antt =====
-- Concrete devices, a node and a scheduler, and the theorems at work on them.
pub mod Fixtures
mod Health
mod Detection
mod Device
mod Main
mod KernelLog
mod Serving
mod Containment
mod Healing
mod Kube
mod Scheduler
mod Failing
mod Conformance
