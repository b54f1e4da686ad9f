-- ===== src/Consensus.antt =====
-- crates/consensus: the simplex application, its stores and its wiring.
pub mod Block
pub mod Metrics
pub mod Validators
pub mod Error
pub mod Config
pub mod Executor
pub mod Plan
pub mod Application
pub mod Channel
pub mod Relay
pub mod Reporter
pub mod Loopback
pub mod Mailbox
pub mod Engine
