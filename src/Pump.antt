-- ===== src/Pump.antt =====
-- companydata/pump.go
pub mod Options
pub mod Loop
pub mod Backoff
pub mod Retries
pub mod Redrive
pub mod Kept
pub mod Redriven
pub mod Deliver
pub mod Process
pub mod Opening
pub mod Run
pub mod Feed
pub mod Ends
mod Examples
