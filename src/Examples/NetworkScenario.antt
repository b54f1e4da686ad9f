-- ===== src/Examples/NetworkScenario.antt =====
-- A network of two validators: a proposal, its broadcast, its verification and its finalization.
use allegro.Examples.NodeScenario.{running, running_config}
use allegro.Cli.Wiring.{engine_config}
use allegro.Node.Finalizer.{finalize}
use allegro.Node.Launch.{into_launched}
use allegro.Prelude.{
  none, ℕ, ◌≡◌, ◌≢◌, replicate, refl, true, List, [], ◌∷◌, some, ok, ◌⊎◌, inl, inr,
}
use allegro.Prelude.Dict.{get, insert}
use allegro.Prelude.Equality.{bytes_eqb}
use allegro.Primitives.Digest.{Bytes, empty_digest}
use allegro.Consensus.Plan
use allegro.Consensus.Metrics.{on_metrics, inc_blocks_broadcast}
use allegro.Consensus.Application.{
  BlockInfo, propose, verify, step, handle_propose, propose_request, after_build,
}
use allegro.Consensus.Relay.{Sender, wire, relay_broadcast, message}
use allegro.Consensus.Executor.{build_payload_attributes, build_payload_attributes_from_request}
use allegro.Consensus.Engine.{start_actor}
use allegro.Node.Builder.{
  new_tracker, create_engine_payload_builder, build, request_payload, round_result, resolve,
  import_block, imported, payload_of,
}
use allegro.Network.System.{
  Among, first, later, Transport, Net, relay, deliver, intrude, Reach, here, next, put, handled,
  set_metrics, received, finalized,
}
use allegro.Network.System.Wires.{Unforged}
use allegro.Network.System.Consistency.{Starts}
use allegro.Network.System.Atomic.{Reach-handled, Reach-finalized}
use allegro.Network.Waiting.{idle}
use allegro.Examples.Fixtures.{TestBlock, eth, engine, engine-Jobs}
use allegro.Examples.Scenario.{
  commonware, genesis_hash, leader_key, proposing, verifying, clock, digest, block_bytes,
}

abbrev pub flooding : Sender (List Bytes)
flooding = record {
  check = λ recipients sent. (ok [], sent);
  send = λ recipients msg priority sent. (true, msg ∷ sent);
}

pub flooding_adds :
    (msg m : Bytes) (sent : List Bytes) → Among m (msg ∷ sent) → (m ≡ msg) ⊎ Among m sent
flooding_adds msg m sent first = inl refl
flooding_adds msg m sent (later there) = inr there

-- Everything that was sent can be delivered.
abbrev pub transport : Transport (List Bytes)
transport = record {
  sender = flooding;
  carried = λ sent. sent;
  check_keeps = λ recipients sent m there. there;
  send_adds = λ recipients msg priority sent m there. flooding_adds msg m sent there;
}

abbrev pub start : Net ℕ TestBlock (List Bytes)
start = record {
  nodes = λ i. record {
    actor = running;
    busy = idle;
    finalizing = none;
    tracker = new_tracker genesis_hash;
    world = 2;
  };
  transport = [];
}

pub start-Starts : Starts commonware (λ i. running_config) transport genesis_hash start
unfolding engine_config into_launched
start-Starts = record {
  actors = λ i. refl;
  one_genesis = λ i. refl;
  at_rest = λ i. refl;
  nothing_final = λ i. refl;
  trackers = λ i. refl;
  quiet = refl;
}

-- A stranger sends bytes of no block under a digest.
abbrev pub junk : Bytes
junk = replicate 40 3

abbrev pub IsForeign : Bytes → Type 0
IsForeign m = m ≡ junk

pub IsForeign-Unforged : (m : Bytes) → IsForeign m → Unforged eth m
IsForeign-Unforged m e = rw e (record { stands = λ long. record { names = λ block decoded. cc } })

abbrev pub after_intrude : Net ℕ TestBlock (List Bytes)
after_intrude =
    put start 1 (received (message (record { key_bytes = 8 ∷ [] }) junk) (start.nodes 1))

-- The leader proposes, and broadcasts its block, which the other validator receives and verifies;
-- then the block is final on both.
abbrev pub after_propose : Net ℕ TestBlock (List Bytes)
after_propose =
    put after_intrude 0 (handled eth engine clock (propose proposing) (after_intrude.nodes 0))

abbrev pub after_relay : Net ℕ TestBlock (List Bytes)
after_relay =
    record (put after_propose 0 (
      set_metrics (on_metrics inc_blocks_broadcast (after_propose.nodes 0).actor.metrics)
        (after_propose.nodes 0))) { transport = wire digest block_bytes ∷ [] }

abbrev pub after_deliver : Net ℕ TestBlock (List Bytes)
after_deliver =
    put after_relay 1
      (received (message leader_key (wire digest block_bytes)) (after_relay.nodes 1))

abbrev pub after_verify : Net ℕ TestBlock (List Bytes)
after_verify =
    put after_deliver 1 (handled eth engine clock (verify verifying) (after_deliver.nodes 1))

abbrev pub after_one : Net ℕ TestBlock (List Bytes)
after_one = put after_verify 0 (finalized eth engine digest (after_verify.nodes 0))

abbrev pub after_both : Net ℕ TestBlock (List Bytes)
after_both = put after_one 1 (finalized eth engine digest (after_one.nodes 1))

pub relayed :
    let a = (after_propose.nodes 0).actor in
    relay_broadcast flooding digest Plan.propose a.pending_blocks a.metrics []
    ≡ some (on_metrics inc_blocks_broadcast a.metrics, wire digest block_bytes ∷ [])
unfolding relay_broadcast start_actor engine_config into_launched step handle_propose
    propose_request after_build get insert bytes_eqb create_engine_payload_builder build
    request_payload round_result resolve import_block imported payload_of build_payload_attributes
    build_payload_attributes_from_request
relayed = refl

pub reached_propose : Reach eth engine transport IsForeign engine-Jobs.GoesOn start after_propose
reached_propose =
    Reach-handled eth engine transport IsForeign engine-Jobs.GoesOn start after_intrude 0 clock
      (propose proposing) (next here (intrude 1 (record { key_bytes = 8 ∷ [] }) junk refl)) refl

pub reached_deliver : Reach eth engine transport IsForeign engine-Jobs.GoesOn start after_deliver
reached_deliver =
    next (next reached_propose (relay 0 digest Plan.propose _ _ relayed))
      (deliver 1 leader_key (wire digest block_bytes) first)

-- From when the block was delivered on.
pub verified_and_finalized :
    (from : Net ℕ TestBlock (List Bytes))
    → Reach eth engine transport IsForeign engine-Jobs.GoesOn from after_deliver
    → Reach eth engine transport IsForeign engine-Jobs.GoesOn from after_both
verified_and_finalized from r =
    Reach-finalized eth engine transport IsForeign engine-Jobs.GoesOn from after_one 1 digest
      (Reach-finalized eth engine transport IsForeign engine-Jobs.GoesOn from after_verify 0 digest
        (Reach-handled eth engine transport IsForeign engine-Jobs.GoesOn from after_deliver 1 clock
          (verify verifying) r refl)
        refl)
      refl

pub reached : Reach eth engine transport IsForeign engine-Jobs.GoesOn start after_both
reached = verified_and_finalized start reached_deliver

abbrev pub known : BlockInfo
known = record {
  number = 1;
  hash = digest.inner;
  view = 1;
  proposer = leader_key;
  timestamp = 5;
  timestamp_millis = 5000;
}

pub digest-ne-empty : digest ≢ empty_digest
digest-ne-empty e = cc

pub moved : (after_both.nodes 0).tracker.0 ≢ genesis_hash
unfolding start_actor engine_config into_launched step handle_propose propose_request after_build
    get insert bytes_eqb create_engine_payload_builder build request_payload round_result resolve
    import_block imported payload_of build_payload_attributes build_payload_attributes_from_request
    finalize
moved e = cc
