-- ===== src/Scheduler.antt =====
-- src/ragplan/scheduler: state machines, circuit breaker, admission and branch execution.
pub mod Machines
pub mod Circuit
pub mod Admission
pub mod Branch
pub mod Tasks
pub mod Report
pub mod Execution
