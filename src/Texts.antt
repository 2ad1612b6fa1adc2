-- ===== src/Texts.antt =====
-- The value tags of the texts of a flow (companydata/flowtext.go).
pub mod Tags
pub mod Parties
pub mod Named
pub mod Examples
