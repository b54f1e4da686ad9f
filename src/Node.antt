-- ===== src/Node.antt =====
-- crates/node: the wiring of consensus to the embedded reth node.
pub mod Reth
pub mod Builder
pub mod Finalizer
pub mod BeaconConsensus
pub mod Launch
pub mod Chainspec
