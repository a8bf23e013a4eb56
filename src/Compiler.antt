-- ===== src/Compiler.antt =====
-- internal/compiler: a rule set turned into the script that the engine runs (`Script`), and into
-- the documents for an atomic swap (`Restore`), from the same lines (`Lines`, `Outbound`).
pub mod Sort
pub mod Args
pub mod Zones
pub mod Lines
pub mod Outbound
pub mod Chains
pub mod Script
pub mod Restore
pub mod Agreement
pub mod Inert
