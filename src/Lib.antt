-- ===== src/Lib.antt =====
-- Allegro: a commonware simplex consensus node that is embedded in a reth execution node.
--
-- A proposal runs through the program like this. The simplex engine, which is commonware's, asks the
-- application actor for a block. The actor asks the payload builder, which drives reth's engine API,
-- records the block, and answers with its digest. The relay broadcasts the bytes. Other nodes receive
-- and store them, and when their engine asks, their actor lets their payload builder validate the bytes
-- and records the block. When a block is final, the reporter sends its digest through a channel to the
-- finalizer, which sends a forkchoice update and moves the tracker that the builder reads.
--
--   Prelude        tests, lists, dictionaries, locks, fallible calls with a state, machine words
--   Primitives     crates/primitives: digest.rs in Digest, header.rs in Header (encode_context is
--                  AllegroConsensusContext::encode, and so on)
--   Consensus      crates/consensus: application.rs in Application (the actor) and Mailbox; engine.rs in
--                  Relay (BlockRelay and spawn_block_receiver), Reporter (MetricsReporter) and Engine
--                  (start_simplex_engine); block.rs, config.rs, error.rs, executor.rs, loopback.rs,
--                  metrics.rs and validators.rs in the modules of these names; Channel is the
--                  interface of the bounded channels of futures and tokio
--   Node           crates/node: builder.rs in Builder, finalizer.rs in Finalizer, allegro_consensus.rs in
--                  BeaconConsensus, chainspec.rs in Chainspec, launch.rs in Launch; Reth is the interface
--                  of reth's engine, payload service and blocks
--   Network        a leader and a validator together, over a transport that delivers (Agreement,
--                  Acceptance, Forgery), reports and finalizations (Finality, Pipeline
--                  over the rounds of Moving, Settlement),
--                  in Waiting the handlers by their waits, and in System the network of all nodes as a
--                  step relation, which Cli.Wiring.Fleet starts by run_consensus
--   Cli            bin/allegro/src/main.rs: arguments, validator set, peers, chain argument, wiring, and
--                  main from the parsed arguments on
--   Xtask          xtask/src/main.rs: the validators of a generated genesis file, and in Output the whole
--                  run of the generator
--   Examples       instances of the interfaces and runs of the code on them
--
-- State. Each component's state is a record that its operations take and return. What the source shares
-- by reference counting (the stores of blocks, the metrics, the tracker) is a field of the state of the
-- operation that uses it. A handler is modelled twice: as one step (Consensus.Application), and by its
-- waits for the execution layer (Network.Waiting, over the build closure by its waits in
-- Node.Builder.Stepwise), between which the other tasks of the node run; so is the finalizer
-- (Node.Finalizer.Stepwise). std locks carry the flag that a panicking holder leaves. The execution
-- layer is a state that every call may change, so a theorem about a call holds in whatever state it is.
--
-- The network. Network.System is a relation between states of all nodes that run this code: its steps
-- are an idle actor that takes any message and runs to its first wait, an answer that brings an actor
-- to its next wait, a broadcast, a delivery of anything that was sent, a message of a foreign node under
-- any key, a receive error, a finalizer that takes any digest and looks it up, an answer to its
-- forkchoice update, and an execution layer that goes on by itself. A waiting actor takes no message,
-- a waiting finalizer no digest, and everything else can happen meanwhile. Which messages are foreign
-- and how execution layers go on are parameters. What the simplex engine would rule out is not ruled
-- out.
--
-- Numbers. u64, u16 and u8 are natural numbers; casts, fetch_add and saturating arithmetic are written
-- out, and counts wrap as they do without overflow checks. Durations are nanoseconds. The clock is an argument of each step.
--
-- Loops. All are structural: over the messages, the digests, the entries, a number of rounds of the
-- finalizer's loop, of which as many as there are digests in the channel empty it, or the at most five
-- attempts of the build closure, which are the source's own bound and no fuel of the model.
--
-- Parameters. The simplex engine and its set, schemes and keys, the transport, RLP, buffers, channels,
-- reth's engine, header rules and launcher, JSON, files and text forms are not in the repository. They
-- are records of operations, and what a theorem needs of them is a named hypothesis on such a record;
-- Examples has an instance of each.
--
-- Not modelled: logging, pauses, the spawning of tasks, the start of the p2p network, the parsing of
-- command lines, the headers' derived RLP, which is the macro's, and the integration tests.
pub mod Prelude
pub mod Primitives
pub mod Consensus
pub mod Node
pub mod Network
pub mod Xtask
pub mod Cli
pub mod Examples
