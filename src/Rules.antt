-- ===== src/Rules.antt =====
-- internal/rules: the rule model, its validation, schema migration and persistence.
pub mod Model
pub mod Checks
pub mod Errors
pub mod Validate
pub mod Migrate
pub mod Valid
pub mod Store
pub mod Starter
pub mod Templates
