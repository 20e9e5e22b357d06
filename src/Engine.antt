-- ===== src/Engine.antt =====
-- src/agent/loop/engine.rs: the agent's loop.
pub mod Message
pub mod Step
pub mod Host
pub mod State
pub mod Pipeline
pub mod Round
pub mod Run
pub mod Invariant
pub mod Termination
pub mod Accounting
pub mod Events
pub mod Goal
pub mod Front
