-- ===== src/Mpsc.antt =====
-- src/mpsc_dispatcher.rs: the dispatcher that owns reactive actors.
pub mod Registry
pub mod Process
pub mod Builder
pub mod Loop
pub mod Extending
pub mod Free
pub mod Answering
pub mod Requests
pub mod Spawn
pub mod Dropped
