-- ===== src/Config.antt =====
-- The configuration (companydata/config.go).
pub mod Load
pub mod Build
pub mod Meaning
pub mod Valid
pub mod Methods
pub mod Examples
