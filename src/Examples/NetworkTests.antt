-- ===== src/Examples/NetworkTests.antt =====
-- What the two validators of the small network know in the end.
use allegro.Examples.NodeScenario.{running_config}
use allegro.Cli.Wiring.{engine_config}
use allegro.Node.Launch.{into_launched}
use allegro.Prelude.{◌≡◌, refl}
use allegro.Prelude.Dict.{get, insert}
use allegro.Prelude.Equality.{bytes_eqb}
use allegro.Consensus.Application.{
  step, handle_propose, propose_request, after_build, handle_verify, verify_bytes, after_validate,
  find_block,
}
use allegro.Consensus.Relay.{receive}
use allegro.Consensus.Executor.{build_payload_attributes, build_payload_attributes_from_request}
use allegro.Node.Finalizer.{finalize}
use allegro.Consensus.Engine.{start_actor}
use allegro.Node.Builder.{
  create_engine_payload_builder, build, request_payload, round_result, resolve, import_block,
  imported, payload_of, validate, judge, meta_of,
}
use allegro.Network.System.Consistency.{nodes_agree, trackers_agree}
use allegro.Examples.Fixtures.{eth, engine, eth-Decodes, engine-Jobs, eth-Hashes}
use allegro.Examples.Scenario.{commonware, genesis_hash, digest}
use allegro.Network.System.{here}
use allegro.Network.System.Memory.{known_stays, tracker_known}
use allegro.Primitives.Digest.{digest_eq}
use allegro.Prelude.{◌⊎◌, some}
use allegro.Consensus.Application.{BlockInfo}
use allegro.Examples.NetworkScenario.{
  after_deliver, reached_deliver, verified_and_finalized, IsForeign, IsForeign-Unforged, after_both,
  digest-ne-empty, known, moved, reached, start, start-Starts, transport,
}

nodes_agree_example :
    (known.hash ≡ digest.inner)
    × (known.hash ≡ digest.inner)
    × (known.number ≡ known.number)
    × (known.timestamp ≡ known.timestamp)
    × (known.timestamp_millis ≡ known.timestamp_millis)
unfolding start_actor engine_config into_launched step handle_propose propose_request after_build
    get insert bytes_eqb create_engine_payload_builder build request_payload round_result resolve
    import_block imported payload_of build_payload_attributes build_payload_attributes_from_request
    receive handle_verify verify_bytes after_validate find_block validate judge meta_of finalize
nodes_agree_example =
    nodes_agree eth engine engine-Jobs transport commonware (λ i. running_config) genesis_hash
      eth-Decodes eth-Hashes IsForeign IsForeign-Unforged start after_both start-Starts reached 0 1
      digest known known digest-ne-empty refl refl

trackers_agree_example : (after_both.nodes 0).tracker.1 ≡ (after_both.nodes 1).tracker.1
unfolding start_actor engine_config into_launched step handle_propose propose_request after_build
    get insert bytes_eqb create_engine_payload_builder build request_payload round_result resolve
    import_block imported payload_of build_payload_attributes build_payload_attributes_from_request
    receive handle_verify verify_bytes after_validate find_block validate judge meta_of finalize
trackers_agree_example =
    trackers_agree eth engine engine-Jobs transport commonware (λ i. running_config) genesis_hash
      eth-Decodes eth-Hashes IsForeign IsForeign-Unforged start after_both start-Starts reached 0 1
      moved refl

known_stays_example :
    (q : BlockInfo) × (get (after_both.nodes 0).actor.block_info.contents digest ≡ some q)
    × (q.hash ≡ known.hash)
    × (q.number ≡ known.number)
    × (q.timestamp ≡ known.timestamp)
    × (q.timestamp_millis ≡ known.timestamp_millis)
unfolding start_actor engine_config into_launched step handle_propose propose_request after_build
    get insert bytes_eqb create_engine_payload_builder build request_payload round_result resolve
    import_block imported payload_of build_payload_attributes build_payload_attributes_from_request
    receive
known_stays_example =
    known_stays eth engine transport engine-Jobs genesis_hash eth-Decodes eth-Hashes IsForeign
      IsForeign-Unforged commonware (λ i. running_config) start after_deliver after_both
      start-Starts reached_deliver (verified_and_finalized after_deliver here) 0 digest known
      digest-ne-empty refl

tracker_known_example :
    let n = after_both.nodes 1 in
    (n.tracker ≡ (genesis_hash, 0))
    ⊎ ((info : BlockInfo) × (get n.actor.block_info.contents (record { inner = n.tracker.0 })
          ≡ some info)
        × (info.hash ≡ n.tracker.0)
        × (info.number ≡ n.tracker.1))
tracker_known_example =
    tracker_known eth engine transport engine-Jobs genesis_hash eth-Decodes eth-Hashes IsForeign
      IsForeign-Unforged commonware (λ i. running_config) start after_both start-Starts reached 1
