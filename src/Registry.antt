-- ===== src/Registry.antt =====
-- registry/: the only code that moves the live alias of a model.
pub mod Port
pub mod Deployer
pub mod Session
pub mod Promote
pub mod Moves
pub mod Rules
pub mod Polling
pub mod Rollouts
pub mod Tries
pub mod Attempts
pub mod Undo
pub mod Reads
pub mod Contract
pub mod Atomic
pub mod History
pub mod Runs
pub mod Rollback
pub mod Filesystem
pub mod AliasDeployment
pub mod FilesKept
pub mod FilesMoved
pub mod FilesRead
pub mod FilesServed
pub mod FilesLaws
pub mod Desk
pub mod Split
pub mod ReadBack
mod Examples
mod FilesExamples
mod SplitExamples
