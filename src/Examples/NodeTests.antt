-- ===== src/Examples/NodeTests.antt =====
-- The payload builder, the finalizer and the header rules on a small execution layer.
use allegro.Prelude.{ℕ, ◌≡◌, ◌↔◌, refl, true, length, List, [], ◌∷◌, none, some, ok, arith, ◌⊎◌}
use allegro.Prelude.Dict.{get, insert}
use allegro.Prelude.Equality.{bytes_eqb}
use allegro.Primitives.Digest.{Digest, digest_eq, empty_digest}
use allegro.Consensus.Executor.{
  BuildPayloadRequest, build_payload_attributes, build_payload_attributes_from_request,
}
use allegro.Consensus.Application.{BlockInfo, propose_request, handle_propose, after_build}
use allegro.Node.Reth.{valid}
use allegro.Node.Builder.{
  build_state, attempts, build, validate, request_payload, round_result, resolve, import_block,
  imported, payload_of, meta_of, judge, create_engine_payload_builder,
}
use allegro.Node.Builder.Retry.{Found, Missed, request_payload_tries}
use allegro.Node.Builder.Agreement.{validate-build}
use allegro.Node.Finalizer.{finalize, finalize_all, finalize_rounds}
use allegro.Network.Finality.{proposed_finalizes}
use allegro.Consensus.Reporter.{MetricsReporter, finalization, report}
use allegro.Consensus.Metrics.{new_metrics}
use allegro.Node.BeaconConsensus.{HeaderRules}
use allegro.Node.BeaconConsensus.Timestamps.{Follows}
use allegro.Node.BeaconConsensus.{
  FullConsensus, EthRules, beacon_consensus, timestamp_is_in_past, against_blob_params,
}
use allegro.Node.BeaconConsensus.Relaxing.{IsEthereum, Alike, beacon_consensus_relaxes}
use allegro.Node.Launch.{RethLauncher, NodeConfig, RethNodeConfig, default_node_config, launch}
use allegro.Node.Launch.Launching.{Launching, launch-Launching}
use Prim.Native.String
use allegro.Node.Launch.{Components}
use allegro.Node.BeaconConsensus.{EngineValidator, invalid_timestamp}
use Prim.Native.String.{String}
use allegro.Prelude.{◌<◌, err, ltb, if◌then◌else◌}
use allegro.Node.Chainspec.{ValidatorFileEntry, parse_entries}
use allegro.Node.Chainspec.Loading.{Loads, parse_entries-Loads}
use allegro.Xtask.RoundTrip.{localhost}
use allegro.Examples.Fixtures.{Queue, queue_channel, eth, engine, eth-Decodes, engine-Honours}
use allegro.Examples.Texts.{text_forms, spell, spell_ip}
use allegro.Examples.Scenario.{
  leader_after, fresh, tracker, proposing, clock, digest, payload, meta, genesis_hash,
}

abbrev request : BuildPayloadRequest
request = record {
  parent_hash = genesis_hash;
  parent_number = 0;
  parent_view = 0;
  parent_digest = empty_digest;
  epoch = 0;
  view = 1;
  proposer = 7 ∷ [];
  timestamp = 5;
  timestamp_millis = 5000;
}

-- Two updates give no payload id.
request_payload_tries_example :
    let fcs = build_state request tracker in
    let attrs = (build_payload_attributes_from_request request).1 in
    let r = request_payload engine fcs attrs attempts "" 2 in
    Found engine fcs attrs attempts 2 r ⊎ Missed engine fcs attrs attempts 2 r
request_payload_tries_example =
    request_payload_tries engine (build_state request tracker)
      (build_payload_attributes_from_request request).1 attempts "" 2

validate-build_example :
    (meta.hash ≡ payload.block_hash)
    × (meta.number ≡ payload.block_number)
    × (meta.timestamp ≡ request.timestamp)
    × (meta.timestamp_millis ≡ payload.timestamp_millis)
unfolding build validate request_payload round_result resolve import_block imported payload_of
    meta_of judge build_payload_attributes build_payload_attributes_from_request
validate-build_example =
    validate-build eth engine engine eth-Decodes engine-Honours tracker request 2 payload refl 0
      genesis_hash meta refl

-- The genesis digest waits in the channel.
abbrev waiting : Queue Digest
waiting = record { items = empty_digest ∷ []; live = true; limit = 32 }

abbrev reporter : MetricsReporter (Queue Digest)
reporter = record { metrics = some new_metrics; finalized_tx = some waiting }

proposed_finalizes_example :
    (rx : Queue Digest) × ((report
        (queue_channel Digest)
        (finalization 1 digest)
        reporter).1.finalized_tx
      ≡ some rx)
    × (info : BlockInfo) × (get leader_after.block_info.contents digest ≡ some info)
    × (info.hash ≡ digest.inner)
    × ((finalize_rounds engine
          (queue_channel Digest)
          (length rx.items)
          rx
          leader_after.block_info
          tracker
          0).0.0
        ≡ (info.hash, info.number))
unfolding get insert bytes_eqb handle_propose propose_request after_build
    create_engine_payload_builder build request_payload round_result resolve import_block imported
    payload_of build_payload_attributes build_payload_attributes_from_request finalize_all finalize
proposed_finalizes_example =
    proposed_finalizes eth engine (queue_channel Digest) clock proposing fresh tracker 2 digest refl
      refl refl 1 reporter waiting refl refl (omega arith) tracker 0
      (record { payload_status = valid; payload_id = none }) refl refl

-- A header is its number and its timestamp.
abbrev rules : HeaderRules (ℕ × ℕ) (Unit {0}) (Unit {0})
rules = record {
  timestamp = λ (number, seconds). seconds;
  against_parent_hash_number = λ header parent. ok tt;
  against_parent_gas_limit = λ header parent. ok tt;
  against_parent_base_fee = λ header parent. ok tt;
  blob_params_at_timestamp = λ seconds. some tt;
  against_parent_4844 = λ header parent params. ok tt;
}

-- The second entry has no egress.
abbrev file_entries : List ValidatorFileEntry
file_entries =
    record {
      index = 0;
      public_key = spell (7 ∷ []);
      ingress = spell_ip localhost 3000;
      egress = spell_ip localhost 3000;
    }
    ∷ record {
      index = 1;
      public_key = spell (8 ∷ []);
      ingress = spell_ip localhost 3001;
      egress = "";
    }
    ∷ []

parse_entries-Loads_example : Loads text_forms file_entries (parse_entries text_forms file_entries)
parse_entries-Loads_example = parse_entries-Loads text_forms file_entries

-- Ethereum's rules on headers that are a number and a timestamp: a later timestamp.
abbrev eth_consensus : FullConsensus (ℕ × ℕ) ℕ ℕ ℕ ℕ (Unit {0})
eth_consensus = record {
  validate_header = λ h. ok tt;
  validate_header_against_parent = λ header parent.
      if ltb parent.1 header.1 then ok tt else err (timestamp_is_in_past parent.1 header.1);
  validate_body_against_header = λ body h. ok tt;
  validate_block_pre_execution = λ block. ok tt;
  validate_block_pre_execution_with_tx_root = λ block root. ok tt;
  validate_block_post_execution = λ block result receipts access. ok tt;
}

abbrev eth_rules : EthRules (Unit {0}) (ℕ × ℕ) ℕ ℕ ℕ ℕ (Unit {0}) (Unit {0})
eth_rules = record {
  eth_beacon_consensus = λ spec. eth_consensus;
  post_execution = λ spec block result receipts access. ok tt;
  header_rules = λ spec. rules;
}

against_parent-Follows :
    (header parent : ℕ × ℕ)
    → (eth_consensus.validate_header_against_parent header parent ≡ ok tt)
      ↔ (Follows rules header parent × (parent.1 < header.1))
unfolding against_blob_params
against_parent-Follows header parent = (
  λ passed. (
    record { linked = refl; not_before = ground arith; gas = refl; fee = refl; blobs = refl },
    ground arith,
  ),
  λ (f, later). ground arith,
)

eth_rules-IsEthereum : IsEthereum eth_rules
eth_rules-IsEthereum = record {
  against_parent = λ spec header parent. against_parent-Follows header parent;
  executed = λ spec block result receipts access. refl;
}

beacon_consensus_relaxes_example :
    Alike (beacon_consensus eth_rules tt) eth_consensus
    × ((header parent : ℕ × ℕ)
        → ((beacon_consensus eth_rules tt).validate_header_against_parent header parent ≡ ok tt) ↔ (
            (eth_consensus.validate_header_against_parent header parent ≡ ok tt)
            ⊎ (Follows rules header parent × (header.1 ≡ parent.1))))
beacon_consensus_relaxes_example = beacon_consensus_relaxes eth_rules eth_rules-IsEthereum tt

-- Ethereum's engine validator, which refuses equal timestamps.
abbrev eth_validator : Unit {0} → EngineValidator ℕ ℕ (ℕ × ℕ) (Unit {0})
eth_validator spec = record {
  convert_payload_to_block = λ payload. ok payload;
  validate_payload_attributes_against_header =
      λ attr header. if ltb header.1 attr.timestamp then ok tt else err invalid_timestamp;
  validate_version_specific_fields = λ version message. ok tt;
  ensure_well_formed_attributes = λ version attr. ok tt;
}

-- A database is its path, a prepared builder a configuration with it, and a node its datadir.
abbrev launcher :
    RethLauncher
      (Unit {0})
      (Components (Unit {0}) (ℕ × ℕ) ℕ ℕ ℕ ℕ ℕ (Unit {0}))
      String
      (NodeConfig (Unit {0}) × String)
      String
launcher = record {
  join = λ dir name. String.◌++◌ dir name;
  init_db = λ path. ok path;
  prepare = λ config db. (config, db);
  datadir_of = λ builder. builder.0.datadir;
  launch_node = λ components builder. ok builder.1;
  genesis_hash = λ node. genesis_hash;
  genesis_timestamp = λ node. 3;
}

abbrev node_cfg : RethNodeConfig (Unit {0})
node_cfg = default_node_config (λ dir name. String.◌++◌ dir name) "/tmp" tt

launch-Launching_example :
    Launching launcher eth_rules
      (λ header. header.1)
      node_cfg
      (launch launcher eth_rules (λ header. header.1) eth_validator node_cfg)
launch-Launching_example =
    launch-Launching launcher eth_rules (λ header. header.1) eth_validator eth_rules-IsEthereum
      node_cfg
