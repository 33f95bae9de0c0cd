-- ===== src/Samples.antt =====
-- Concrete inputs, runs of the definitions on them, and the theorems at these inputs.
mod Core
mod Circuit
mod Execution
mod Guard
mod Ingestion
mod Names
mod Activation
mod Metrics
mod Planner
mod Optimizer
mod Fusion
mod Engine
mod Work
