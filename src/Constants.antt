-- ===== src/Constants.antt =====
-- The constants of contract flows (companydata/flowconstants.go).
pub mod Dates
pub mod Expr
pub mod Refs
pub mod Compute
pub mod Grows
pub mod Agree
pub mod Depends
pub mod Visits
pub mod Sorted
pub mod Reached
pub mod Ordered
pub mod Solved
pub mod Typed
pub mod Periods
pub mod Calendar
pub mod Plugins
pub mod Expanded
pub mod Largest
pub mod Examples
