-- ===== src/Notify.antt =====
-- notifications/: the delivery of the outbox to the sinks.
pub mod Breaker
pub mod Deliveries
pub mod Dispatch
pub mod BreakerLaws
pub mod History
pub mod Lease
pub mod Crash
mod Examples
