-- ===== src/Tests.antt =====
-- The theorems at concrete inputs, and runs of the model.
mod Sample
mod Delivery
mod Timers
mod Mailboxes
mod Dispatchers
mod Accessors
mod Loops
mod Orders
mod Simulations
mod Answers
mod Punctuality
mod Profiling
mod Metrics
mod Macros
mod Spawning
mod Nodes
mod Hosted
mod Stopping
mod Mocks
mod Late
