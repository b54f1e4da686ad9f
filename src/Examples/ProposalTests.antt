-- ===== src/Examples/ProposalTests.antt =====
-- The second proposal of the small network, while it waits for its last answer.
use allegro.Examples.NodeScenario.{running_config}
use allegro.Cli.Wiring.{engine_config}
use allegro.Node.Launch.{into_launched}
use allegro.Prelude.{arith, ℕ, ◌≡◌, ◌≢◌, List, replicate, refl, [], ◌∷◌, some}
use allegro.Prelude.Dict.{get, insert}
use allegro.Prelude.Equality.{bytes_eqb}
use allegro.Primitives.Digest.{digest_eq, Bytes, Digest}
use allegro.Consensus.Application.{
  propose, step, handle_propose, propose_request, after_build, handle_verify, verify_bytes,
  after_validate, find_block, Propose,
}
use allegro.Consensus.Relay.{receive}
use allegro.Consensus.Executor.{
  build_payload_attributes, build_payload_attributes_from_request, BuiltPayload,
  BuildPayloadRequest,
}
use allegro.Node.Finalizer.{finalize}
use allegro.Consensus.Engine.{start_actor}
use allegro.Node.Builder.{
  create_engine_payload_builder, build, request_payload, round_result, resolve, import_block,
  imported, payload_of, validate, judge, meta_of,
}
use allegro.Network.System.{Net, put, begun, answer, resumed}
use allegro.Network.System.Pending.{Meanwhile, at_once, goes_on}
use allegro.Network.System.Proposals.{Follows, proposals_follow_parents}
use allegro.Network.Waiting.{Busy, idle, proposing, begin, resume}
use allegro.Node.Builder.Stepwise.{Job, importing, build_step, start_build}
use allegro.Examples.Scenario.{round, commonware, genesis_hash, leader_key, digest}
use allegro.Examples.Fixtures.{TestBlock, eth, engine, engine-Jobs}
use allegro.Examples.NetworkScenario.{
  IsForeign, after_both, known, reached, start, start-Starts, transport,
}

-- The other validator proposes on the block of the first, two seconds later.
abbrev next_proposing : Propose
next_proposing = record {
  parent_view = 1;
  parent_digest = digest;
  round = round;
  leader = leader_key;
}

abbrev next_digest : Digest
next_digest = record { inner = 7 ∷ replicate 31 2 }

abbrev next_request : BuildPayloadRequest
next_request = propose_request (some 7000) next_proposing (some known)

-- The network in which it took the message, and in which four of its answers came: it waits for the
-- verdict on its own block.
abbrev TestNet : Type 0
TestNet = Net ℕ TestBlock (List Bytes)

abbrev answered : TestNet → TestNet
answered net = put net 1 (resumed eth engine (net.nodes 1))

abbrev asked_net : TestNet
asked_net =
    put after_both 1 (begun eth engine (some 7000) (propose next_proposing) (after_both.nodes 1))

abbrev waiting_net : TestNet
waiting_net = answered (answered (answered (answered asked_net)))

is_waiting :
    (busy : Busy TestBlock) (p : Propose) (request : BuildPayloadRequest) (job : Job TestBlock)
    → busy ≡ proposing p request job
    → busy ≢ idle
is_waiting busy p request job h e = cc

waits_on : Meanwhile eth engine transport IsForeign engine-Jobs.GoesOn 1 asked_net waiting_net
unfolding start_actor engine_config into_launched step handle_propose propose_request after_build
    get insert bytes_eqb create_engine_payload_builder build request_payload round_result resolve
    import_block imported payload_of build_payload_attributes build_payload_attributes_from_request
    receive handle_verify verify_bytes after_validate find_block validate judge meta_of finalize
    begin resume build_step start_build
waits_on =
    goes_on
      (goes_on
        (goes_on (goes_on at_once (is_waiting _ _ _ _ refl) (answer 1)) (is_waiting _ _ _ _ refl)
          (answer 1))
        (is_waiting _ _ _ _ refl) (answer 1))
      (is_waiting _ _ _ _ refl) (answer 1)

abbrev next_payload : BuiltPayload
next_payload = record {
  block_bytes = 7 ∷ 1 ∷ [];
  block_hash = next_digest.inner;
  block_number = 1;
  timestamp_millis = 7000;
}

proposals_follow_parents_example :
    Follows
      (after_both.nodes 1).actor
      (resumed eth engine (waiting_net.nodes 1)).actor
      7000
      next_proposing
      next_request
      next_payload
unfolding start_actor engine_config into_launched step handle_propose propose_request after_build
    get insert bytes_eqb create_engine_payload_builder build request_payload round_result resolve
    import_block imported payload_of build_payload_attributes build_payload_attributes_from_request
    receive handle_verify verify_bytes after_validate find_block validate judge meta_of finalize
    begin resume build_step start_build
proposals_follow_parents_example =
    proposals_follow_parents eth engine engine-Jobs transport IsForeign start commonware
      (λ i. running_config) genesis_hash start-Starts (λ i. refl) (λ i. omega arith) after_both
      reached 1 7000 next_proposing refl (omega arith) waiting_net waits_on next_proposing
      next_request (importing (record { seconds = 7; height = 1 })) next_payload refl refl
