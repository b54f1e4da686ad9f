-- ===== src/Examples/SettlementTests.antt =====
-- A block that is final on the leader and on the validator.
use allegro.Prelude.{ℕ, ◌≡◌, refl}
use allegro.Primitives.Digest.{digest_eq}
use allegro.Node.Finalizer.{finalize}
use allegro.Prelude.{none}
use allegro.Node.Reth.{ForkchoiceUpdated, valid}
use allegro.Network.Settlement.{settles_alike}
use allegro.Network.{deliver}
use allegro.Consensus.Relay.{receive}
use allegro.Consensus.Executor.{build_payload_attributes, build_payload_attributes_from_request}
use allegro.Consensus.Application.{
  handle_propose, propose_request, after_build, handle_verify, verify_bytes, after_validate,
  find_block,
}
use allegro.Node.Builder.{
  create_engine_payload_builder, build, validate, request_payload, round_result, resolve,
  import_block, imported, payload_of, meta_of, judge,
}
use allegro.Prelude.Equality.{bytes_eqb}
use allegro.Prelude.Dict.{get, insert}
use allegro.Examples.Fixtures.{eth, engine, eth-Decodes, engine-Honours}
use allegro.Examples.Scenario.{
  fresh, digest, tracker, builder, clock, proposing, verifying, leader_key, leader_after,
}

abbrev validated : ForkchoiceUpdated
validated = record { payload_status = valid; payload_id = none }

settles_alike_example :
    let b' =
      (handle_verify builder verifying
        (deliver leader_key digest leader_after fresh)
        (tracker, 0)).1 in
    (number : ℕ) × ((finalize engine digest leader_after.block_info tracker 0).0
      ≡ (digest.inner, number))
    × ((finalize engine digest b'.block_info tracker 0).0 ≡ (digest.inner, number))
unfolding get insert bytes_eqb handle_propose propose_request after_build handle_verify verify_bytes
    after_validate find_block deliver receive create_engine_payload_builder build validate
    request_payload round_result resolve import_block imported payload_of meta_of judge
    build_payload_attributes build_payload_attributes_from_request
settles_alike_example =
    settles_alike eth engine engine eth-Decodes engine-Honours clock proposing fresh tracker 2
      digest refl refl refl refl fresh tracker 0 verifying refl refl refl refl refl refl refl
      tracker 0 validated refl refl tracker 0 validated refl refl
