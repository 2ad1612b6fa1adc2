-- ===== src/Webhooks.antt =====
-- The webhook receiver (companydata/webhooks.go).
pub mod Headers
pub mod Verify
pub mod Credentials
pub mod Payload
pub mod Sealed
pub mod Examples
