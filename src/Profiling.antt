-- ===== src/Profiling.antt =====
-- src/profiled_actor.rs and src/profiling_aggregator.rs: how actors are measured.
pub mod State
pub mod Aggregator
pub mod Hosted
pub mod Metric
