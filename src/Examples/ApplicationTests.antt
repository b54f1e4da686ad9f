-- ===== src/Examples/ApplicationTests.antt =====
-- The application actor on concrete messages.
use allegro.Prelude.{◌+◌, ◌/◌, ◌≤◌, ◌<◌, ◌≡◌, refl, true, some, u64_max, wrap_u64, arith, ◌⊎◌}
use allegro.Prelude.Dict.{get, insert}
use allegro.Prelude.Equality.{bytes_eqb}
use allegro.Primitives.Digest.{digest_eq, public_key_eq}
use allegro.Consensus.Application.{
  Actor, BlockInfo, find_block, handle_propose, handle_verify, verify_bytes, after_validate, run,
  now_millis, propose_request, after_build,
}
use allegro.Consensus.Executor.{build_payload_attributes, build_payload_attributes_from_request}
use allegro.Consensus.Application.Proposing.{
  IsTimed, propose_request_times, Proposal, handle_propose-Proposal,
}
use allegro.Consensus.Application.Verifying.{Accepts}
use allegro.Consensus.Application.Recording.{Verification, handle_verify-Verification}
use allegro.Consensus.Application.Running.{AllTimed}
use allegro.Consensus.Application.Counting.{
  answered, proposed, total, count_verify, count_propose, run_counts,
}
use allegro.Consensus.Relay.{receive}
use allegro.Node.Builder.{
  create_engine_payload_builder, build, validate, request_payload, round_result, resolve,
  import_block, imported, payload_of, meta_of, judge,
}
use allegro.Network.{deliver}
use allegro.Network.Acceptance.{honest_proposal_accepted}
use allegro.Network.Agreement.{deliver_agrees}
use allegro.Examples.Fixtures.{eth, engine, eth-Decodes, engine-Honours}
use allegro.Examples.Scenario.{
  fresh, tracker, builder, proposing, verifying, clock, digest, block_bytes, meta, leader_after,
  supplied, messages, genesis, leader_key, leader_address,
}

deliver_agrees_example :
    (info : BlockInfo) × (get leader_after.block_info.contents digest ≡ some info)
    × (get
          (handle_verify builder verifying
            (deliver leader_key digest leader_after fresh)
            (tracker, 0)).1.block_info.contents
          digest
        ≡ some info)
unfolding get insert bytes_eqb handle_propose propose_request after_build handle_verify verify_bytes
    after_validate find_block deliver receive create_engine_payload_builder build validate
    request_payload round_result resolve import_block imported payload_of meta_of judge
    build_payload_attributes build_payload_attributes_from_request
deliver_agrees_example =
    deliver_agrees eth engine engine eth-Decodes engine-Honours clock proposing fresh tracker 2
      digest refl refl refl refl fresh tracker 0 verifying refl refl refl refl refl refl refl

honest_proposal_accepted_example :
    (handle_verify builder verifying (deliver leader_key digest leader_after fresh) (tracker, 0)).0
    ≡ true
unfolding get insert bytes_eqb handle_propose propose_request after_build
    create_engine_payload_builder build request_payload round_result resolve import_block imported
    payload_of build_payload_attributes build_payload_attributes_from_request
honest_proposal_accepted_example =
    honest_proposal_accepted eth engine engine eth-Decodes engine-Honours clock proposing fresh
      tracker 2 digest refl refl refl refl fresh tracker 0 verifying leader_address refl refl refl
      refl refl refl (λ block e. refl)

genesis-IsTimed : IsTimed genesis
genesis-IsTimed = record { whole_seconds = refl; in_range = omega arith }

fresh-AllTimed : AllTimed fresh.block_info.contents
unfolding get
fresh-AllTimed = record { at = λ d info e. ground (arith, genesis-IsTimed) }

propose_request_times_example :
    let r = propose_request clock proposing (some genesis) in
    (now_millis clock ≤ r.timestamp_millis)
    × (r.timestamp_millis ≤ u64_max)
    × (r.timestamp_millis / 1000 ≡ r.timestamp)
    × (genesis.timestamp ≤ r.timestamp)
    × ((genesis.timestamp_millis < r.timestamp_millis) ⊎ (r.timestamp_millis ≡ u64_max))
propose_request_times_example = propose_request_times clock proposing genesis genesis-IsTimed

accepted : Accepts builder verifying supplied (tracker, 0)
unfolding get bytes_eqb find_block create_engine_payload_builder validate judge meta_of
accepted = record {
  address = leader_address;
  known = refl;
  healthy = refl;
  bytes = block_bytes;
  found = refl;
  meta = meta;
  judged = refl;
  timed = refl;
}

handle_verify-Verification_example :
    Verification builder verifying supplied
      (tracker, 0)
      (handle_verify builder verifying supplied (tracker, 0))
handle_verify-Verification_example =
    handle_verify-Verification builder verifying supplied (tracker, 0)

run_counts_example :
    let s' = (run builder messages fresh (tracker, 2)).0 in
    (wrap_u64 (answered s') ≡ wrap_u64 (answered fresh + total count_verify messages))
    × (wrap_u64 (proposed s') ≡ wrap_u64 (proposed fresh + total count_propose messages))
    × (wrap_u64 s'.proposal_count ≡ wrap_u64 (fresh.proposal_count + total count_propose messages))
run_counts_example =
    run_counts builder messages fresh (tracker, 2) (record { collected = refl; healthy = refl })

handle_propose-Proposal_example :
    Proposal builder proposing fresh
      (tracker, 2)
      (handle_propose builder clock proposing fresh (tracker, 2))
handle_propose-Proposal_example = handle_propose-Proposal builder clock proposing fresh (tracker, 2)

-- The map of known blocks is lost to a panic: nothing is proposed.
abbrev poisoned : Actor
poisoned = record fresh { block_info = record fresh.block_info { poisoned = true } }
