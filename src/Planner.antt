-- ===== src/Planner.antt =====
-- src/ragplan/planner: the runtime guard of the cost model and the rule planner.
pub mod Guard
pub mod Plan
pub mod Rule
pub mod Optimizer
