-- ===== src/FieldTypes.antt =====
-- The field types (companydata/fieldtypes.go): the checks of a value.
pub mod Checks
pub mod Luhn
pub mod Dates
pub mod Examples
pub mod Registry
pub mod Ancestors
pub mod Tree
pub mod Below
pub mod Descend
pub mod Sets
pub mod Display
pub mod Effective
pub mod Patterns
pub mod Values
pub mod Validate
pub mod Accepted
pub mod Objects
pub mod Composite
pub mod RegistryExamples
