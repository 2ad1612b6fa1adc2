-- ===== src/Http.antt =====
-- The transport (companydata/http.go).
pub mod Wire
pub mod Client
pub mod Loop
pub mod Ends
pub mod Backoff
pub mod Examples
