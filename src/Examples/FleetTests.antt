-- ===== src/Examples/FleetTests.antt =====
-- The small network, as one of consensus threads.
use allegro.Examples.NodeScenario.{runtime, args, wiring, thread, running_simplex}
use allegro.Cli.Wiring.{engine_config}
use allegro.Node.Launch.{into_launched}
use allegro.Prelude.{◌≡◌, refl}
use allegro.Prelude.Dict.{get, insert}
use allegro.Prelude.Equality.{bytes_eqb}
use allegro.Consensus.Application.{
  step, handle_propose, propose_request, after_build, handle_verify, verify_bytes, after_validate,
  find_block,
}
use allegro.Consensus.Relay.{receive}
use allegro.Consensus.Executor.{build_payload_attributes, build_payload_attributes_from_request}
use allegro.Node.Finalizer.{finalize}
use allegro.Consensus.Engine.{start_actor}
use allegro.Node.Builder.{
  create_engine_payload_builder, build, request_payload, round_result, resolve, import_block,
  imported, payload_of, judge, meta_of,
}
use allegro.Examples.Fixtures.{eth, engine, eth-Decodes, engine-Jobs, eth-Hashes}
use allegro.Examples.Scenario.{genesis_hash}
use allegro.Primitives.Digest.{digest_eq}
use allegro.Examples.NetworkScenario.{
  IsForeign, IsForeign-Unforged, after_both, moved, reached, start, transport,
}
use allegro.Prelude.{ℕ, List, Bool}
use allegro.Prelude.Dict.{Dict}
use allegro.Primitives.Digest.{Digest, PublicKey, public_key_eq}
use allegro.Consensus.Validators.{Address}
use allegro.Consensus.Config.{default_config}
use allegro.Consensus.Config
use allegro.Node.Builder
use allegro.Consensus.Engine.{start_simplex_engine, start_with, has_zero_size}
use allegro.Cli.Args.{dev_lookup_config}
use allegro.Cli.Wiring.{run_consensus, run_network}
use allegro.Cli.Wiring.Fleet.{NodeArgs, Fleet, threads_finalize_alike}
use allegro.Examples.Fixtures.{Queue}
use allegro.Examples.Scenario.{validators}
use allegro.Examples.NodeScenario.{runtime, args, wiring, thread, running_simplex}

-- Every node runs the same thread.
abbrev node_args : NodeArgs ℕ Bool (Queue Digest) (List (Dict PublicKey Address))
node_args = record {
  args = args;
  validators = validators;
  reth = wiring;
  consensus_config = default_config;
  thread = thread;
  simplex = running_simplex;
}

start-Fleet : Fleet runtime (λ i. node_args) transport genesis_hash start
unfolding run_consensus run_network dev_lookup_config into_launched start_simplex_engine start_with
    has_zero_size Config.validate
start-Fleet = record {
  ran = λ i. refl;
  engines = λ i. refl;
  trackers = λ i. refl;
  one_genesis = λ i. refl;
  at_rest = λ i. refl;
  nothing_final = λ i. refl;
  quiet = refl;
}

threads_finalize_alike_example : (after_both.nodes 0).tracker.1 ≡ (after_both.nodes 1).tracker.1
unfolding start_actor engine_config into_launched step handle_propose propose_request after_build
    get insert bytes_eqb create_engine_payload_builder build request_payload round_result resolve
    import_block imported payload_of build_payload_attributes build_payload_attributes_from_request
    receive handle_verify verify_bytes after_validate find_block Builder.validate judge meta_of
    finalize
threads_finalize_alike_example =
    threads_finalize_alike runtime eth engine engine-Jobs transport genesis_hash eth-Decodes
      eth-Hashes IsForeign IsForeign-Unforged (λ i. node_args) start after_both start-Fleet reached
      0 1 moved refl
