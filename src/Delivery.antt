-- ===== src/Delivery.antt =====
-- delivery/: the progressive delivery of a candidate.
pub mod Health
pub mod Judged
pub mod Rollouts
pub mod Controller
pub mod InOrder
pub mod Advances
pub mod Actions
pub mod Start
pub mod Started
pub mod StartEnds
pub mod StartedWell
pub mod Steps
pub mod Undone
mod Examples
mod StartExamples
