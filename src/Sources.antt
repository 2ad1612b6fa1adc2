-- ===== src/Sources.antt =====
-- The participant sources of a document (companydata/flowsources.go).
pub mod Held
pub mod Generate
pub mod Distinct
pub mod Exact
pub mod Uploaded
pub mod Examples
