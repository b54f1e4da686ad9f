-- ===== src/Network.antt =====
-- A proposal on its way between two nodes: what crates/consensus/src/engine.rs sends of a block and
-- stores of it, over a transport that delivers it.
pub mod Agreement
pub mod Finality
pub mod Moving
pub mod Pipeline
pub mod Settlement
pub mod Forgery
pub mod Acceptance
pub mod Waiting
pub mod System
use allegro.Prelude.{Option, none, some}
use allegro.Prelude.Dict.{get}
use allegro.Primitives.Digest.{Digest, PublicKey, digest_eq}
use allegro.Consensus.Executor.{PayloadBuilder, as_payload_builder}
use allegro.Consensus.Application.{Actor}
use allegro.Consensus.Relay.{message, wire, receive}
use allegro.Node.Reth.{Engine, EthFormat}
use allegro.Node.Builder.{Tracker, create_engine_payload_builder}

-- The builder that `run_consensus` gives to the actor.
abbrev pub engine_builder :
    {W B X : Type 0} → EthFormat B X → Engine W B X → PayloadBuilder (Tracker × W)
engine_builder eth engine = as_payload_builder (create_engine_payload_builder eth engine)

-- The receiver `b` after the message with which the leader's relay broadcasts this digest.
unfoldable pub deliver : PublicKey → Digest → Actor → Actor → Actor
unfolding receive
deliver leader digest a b = elim (get a.pending_blocks.contents digest) [
  | none ↦ b
  | some block_bytes ↦
      let (received, metrics) =
        receive (message leader (wire digest block_bytes)) b.received_blocks b.metrics in
      record b { received_blocks = received; metrics = metrics }
]
