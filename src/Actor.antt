-- ===== src/Actor.antt =====
-- src/actor.rs: addresses, messages, and the errors of actor operations.
pub mod Channel
pub mod Message
pub mod World
pub mod Delivery
