-- ===== src/Active.antt =====
-- src/active.rs: mailboxes and their addresses.
pub mod Address
pub mod Mailbox
