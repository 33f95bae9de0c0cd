-- ===== src/Core.antt =====
-- src/ragplan/core: error codes, enumerations, request limits and the absolute deadline.
pub mod Errors
pub mod Kinds
pub mod Deadline
pub mod Ids
