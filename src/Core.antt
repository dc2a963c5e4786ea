-- ===== src/Core.antt =====
-- src/core.cc
pub mod Globals
pub mod Consumers
pub mod Rounds
pub mod Tracer
pub mod Lifecycle
pub mod Starts
pub mod Reports
pub mod Cycles
pub mod Preserved
pub mod Settled
pub mod Traces
pub mod Modules
