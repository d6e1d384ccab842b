-- ===== src/Decision.antt =====
-- decision/: the choice of an adaptation strategy.
pub mod Constraints
pub mod Llm
pub mod Select
pub mod Trust
pub mod Narrow
pub mod Allowed
pub mod Explained
mod Examples
