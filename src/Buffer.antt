-- ===== src/Buffer.antt =====
-- companydata/buffer.go
pub mod Decimal
pub mod Names
pub mod Disk
pub mod Ops
pub mod Order
pub mod ReadBack
pub mod Counter
pub mod Slots
pub mod Invariant
pub mod Rounds
pub mod Append
pub mod Outcomes
pub mod Settle
pub mod DeadLetters
pub mod Examples
