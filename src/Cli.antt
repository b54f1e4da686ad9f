-- ===== src/Cli.antt =====
-- bin/allegro/src/main.rs: the arguments, the validator set and the configurations that they make,
-- and the wiring of the consensus thread. clap, reth's CLI and commonware's network are libraries.
pub mod Args
pub mod Devnet
pub mod Peers
pub mod Genesis
pub mod Wiring
pub mod Main
