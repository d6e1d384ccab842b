-- ===== src/Worker.antt =====
-- orchestrator/worker.py: claims, the supervisor of an attempt, outcomes, the reaper.
pub mod Claim
pub mod Late
pub mod Attempt
pub mod Reap
pub mod Keep
pub mod KeepQueue
pub mod KeepReap
pub mod System
pub mod Fence
pub mod Exclusive
pub mod GiveBack
pub mod Settle
mod Examples
