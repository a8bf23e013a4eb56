-- ===== src/Rules/Valid.antt =====
-- What a valid rule set is, in terms of its values and not of the tests of `Validate`.
pub mod Parts
pub mod Rule
