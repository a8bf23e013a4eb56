-- ===== src/Compiler/Inert.antt =====
-- What a line may hold without meaning anything to the shell that runs the script.
pub mod Bytes
pub mod Plain
pub mod Fragments
pub mod Sources
pub mod Rules
pub mod Outbound
pub mod Parts
pub mod Chains
