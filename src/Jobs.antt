-- ===== src/Jobs.antt =====
-- orchestrator/jobs.py and orchestrator/locks.py, over the rows of db/models.py.
pub mod Rows
pub mod Tables
pub mod Locks
pub mod Transition
pub mod Submit
pub mod Cancel
pub mod Evolve
pub mod Keep
pub mod Sound
pub mod LockTaken
pub mod SubmitSound
pub mod Busy
