-- ===== src/Reactive.antt =====
-- src/reactive.rs: instants, timers and their scheduler.
pub mod Instant
pub mod Timer
pub mod Scheduler
pub mod Address
pub mod Context
