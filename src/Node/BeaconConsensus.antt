-- ===== src/Node/BeaconConsensus.antt =====
-- crates/node/src/allegro_consensus.rs: the consensus rules and the engine validator, which differ
-- from Ethereum's in the timestamps. Ethereum's are reth's, a parameter.
pub mod Timestamps
pub mod Relaxing
use allegro.Prelude.{
  ℕ, ◌⊎◌, Bool, Option, none, some, Result, ok, err, ltb, if◌then◌else◌, and_then,
}
use allegro.Primitives.Digest.{Bytes}
use allegro.Consensus.Executor.{PayloadAttributes}

-- `reth_consensus::ConsensusError`: the one that the source makes, and reth's own.
pub data HeaderError (E : Type 0) : Type 0 where
  timestamp_is_in_past : (parent_timestamp timestamp : ℕ) → HeaderError E
  by_reth : E → HeaderError E

-- What is called of reth, on headers `H` and blob parameters `P`.
pub record HeaderRules (H P E : Type 0) : Type 0 where
  pub timestamp : H → ℕ
  pub against_parent_hash_number : H → H → Result (Unit {0}) (HeaderError E)
  pub against_parent_gas_limit : H → H → Result (Unit {0}) (HeaderError E)
  pub against_parent_base_fee : H → H → Result (Unit {0}) (HeaderError E)
  pub blob_params_at_timestamp : ℕ → Option P
  pub against_parent_4844 : H → H → P → Result (Unit {0}) (HeaderError E)

module _ {H P E : Type 0} (reth : HeaderRules H P E) where
  unfoldable pub against_blob_params : H → H → Option P → Result (Unit {0}) (HeaderError E)
  against_blob_params header parent none = ok tt
  against_blob_params header parent (some blob_params) =
      reth.against_parent_4844 header parent blob_params

  unfoldable pub against_timestamp : H → H → Result (Unit {0}) (HeaderError E)
  against_timestamp header parent =
      if ltb (reth.timestamp header) (reth.timestamp parent)
      then err (timestamp_is_in_past (reth.timestamp parent) (reth.timestamp header))
      else ok tt

  unfoldable pub validate_header_against_parent : H → H → Result (Unit {0}) (HeaderError E)
  unfolding against_blob_params against_timestamp
  validate_header_against_parent header parent =
      and_then (reth.against_parent_hash_number header parent) λ _.
        and_then (against_timestamp header parent) λ _.
          and_then (reth.against_parent_gas_limit header parent) λ _.
            and_then (reth.against_parent_base_fee header parent) λ _.
              against_blob_params header parent
                (reth.blob_params_at_timestamp (reth.timestamp header))

-- `InvalidPayloadAttributesError`.
pub data InvalidPayloadAttributes : Type 0 where
  invalid_timestamp : InvalidPayloadAttributes

-- The second argument is the header's timestamp.
unfoldable pub validate_payload_attributes_against_header :
    PayloadAttributes → ℕ → Result (Unit {0}) InvalidPayloadAttributes
validate_payload_attributes_against_header attr header_timestamp =
    if ltb attr.timestamp header_timestamp then err invalid_timestamp else ok tt

-- reth's traits `HeaderValidator`, `Consensus` and `FullConsensus`, on headers `H`, bodies `D`, sealed
-- blocks `K`, recovered blocks `R` and execution results `Q`. A transactions root, a receipts root
-- with its bloom and an access list's hash are bytes.
pub record FullConsensus (H D K R Q E : Type 0) : Type 0 where
  pub validate_header : H → Result (Unit {0}) (HeaderError E)
  pub validate_header_against_parent : H → H → Result (Unit {0}) (HeaderError E)
  pub validate_body_against_header : D → H → Result (Unit {0}) (HeaderError E)
  pub validate_block_pre_execution : K → Result (Unit {0}) (HeaderError E)
  pub validate_block_pre_execution_with_tx_root :
      K → Option Bytes → Result (Unit {0}) (HeaderError E)
  pub validate_block_post_execution :
      R → Q → Option Bytes → Option Bytes → Result (Unit {0}) (HeaderError E)

-- What a chain spec gives: Ethereum's consensus, reth's free function for executed blocks, and the
-- rules that the source calls one by one.
pub record EthRules (S H D K R Q P E : Type 0) : Type 0 where
  pub eth_beacon_consensus : S → FullConsensus H D K R Q E
  pub post_execution : S → R → Q → Option Bytes → Option Bytes → Result (Unit {0}) (HeaderError E)
  pub header_rules : S → HeaderRules H P E

-- `AllegroBeaconConsensus`, as `AllegroConsensusBuilder` builds it of the chain spec.
unfoldable pub beacon_consensus :
    {S H D K R Q P E : Type 0} → EthRules S H D K R Q P E → S → FullConsensus H D K R Q E
unfolding validate_header_against_parent
beacon_consensus rules chain_spec =
    let inner = rules.eth_beacon_consensus chain_spec in
    record {
      validate_header = inner.validate_header;
      validate_header_against_parent =
          validate_header_against_parent (rules.header_rules chain_spec);
      validate_body_against_header = inner.validate_body_against_header;
      validate_block_pre_execution = inner.validate_block_pre_execution;
      validate_block_pre_execution_with_tx_root = inner.validate_block_pre_execution_with_tx_root;
      validate_block_post_execution = rules.post_execution chain_spec;
    }

-- reth's traits `PayloadValidator` and `EngineApiValidator`, on payloads `X`, blocks `K` and headers
-- `H`; a message's version is a number.
pub record EngineValidator (X K H E : Type 0) : Type 0 where
  pub convert_payload_to_block : X → Result K E
  pub validate_payload_attributes_against_header :
      PayloadAttributes → H → Result (Unit {0}) InvalidPayloadAttributes
  pub validate_version_specific_fields : ℕ → X ⊎ PayloadAttributes → Result (Unit {0}) E
  pub ensure_well_formed_attributes : ℕ → PayloadAttributes → Result (Unit {0}) E

-- `AllegroEngineValidator`, as its builder builds it of the chain spec.
unfoldable pub engine_validator :
    {S X K H E : Type 0} → (H → ℕ) → (S → EngineValidator X K H E) → S → EngineValidator X K H E
unfolding validate_payload_attributes_against_header
engine_validator timestamp ethereum_engine_validator chain_spec =
    let inner = ethereum_engine_validator chain_spec in
    record {
      convert_payload_to_block = inner.convert_payload_to_block;
      validate_payload_attributes_against_header =
          λ attr header. validate_payload_attributes_against_header attr (timestamp header);
      validate_version_specific_fields = inner.validate_version_specific_fields;
      ensure_well_formed_attributes = inner.ensure_well_formed_attributes;
    }
