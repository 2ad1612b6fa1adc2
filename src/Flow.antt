-- ===== src/Flow.antt =====
-- The contract-flow helpers.
pub mod Scalars
pub mod Condition
pub mod Boolean
pub mod Answers
pub mod Examples
