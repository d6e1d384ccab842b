-- ===== src/Reuse.antt =====
-- analysis/reuse_decision.py: whether a registered version can go live again.
pub mod Decide
pub mod Best
mod Examples
