-- ===== src/Async.antt =====
-- src/async_actor.rs: async mailboxes and their addresses.
pub mod Address
pub mod Mailbox
