-- ===== src/Plugins.antt =====
-- Plugins in the flow of a contract (companydata/plugin.go).
pub mod Elements
pub mod Privacy
pub mod Explored
pub mod Reach
pub mod Inputs
pub mod Sent
pub mod Pass
pub mod Call
pub mod Rounds
pub mod Bounds
pub mod Values
pub mod Examples
