-- ===== src/Consensus/Executor.antt =====
-- crates/consensus/src/executor.rs: the interface to the execution layer, and what is asked of it.
use allegro.Prelude.{ℕ, List, [], Option, none, some, Call, replicate}
use Prim.Native.String.{String}
use allegro.Primitives.Digest.{Bytes, B256, Digest, zero_hash}

pub record BuiltPayload : Type 0 where
  pub block_bytes : Bytes
  pub block_hash : B256
  pub block_number : ℕ
  pub timestamp_millis : ℕ

pub record BlockMeta : Type 0 where
  pub hash : B256
  pub number : ℕ
  pub timestamp : ℕ
  pub timestamp_millis : ℕ

pub data ValidationResult : Type 0 where
  valid : BlockMeta → ValidationResult
  invalid : String → ValidationResult

pub record BuildPayloadRequest : Type 0 where
  pub parent_hash : B256
  pub parent_number : ℕ
  pub parent_view : ℕ
  pub parent_digest : Digest
  pub epoch : ℕ
  pub view : ℕ
  pub proposer : Bytes
  pub timestamp : ℕ
  pub timestamp_millis : ℕ

pub record ValidateBlockRequest : Type 0 where
  pub block_bytes : Bytes
  pub parent_hash : B256

-- The trait `PayloadBuilder`. `W` is the state of the execution layer, which a call may change.
pub record PayloadBuilder (W : Type 0) : Type 0 where
  pub build_payload : BuildPayloadRequest → Call W BuiltPayload String
  pub validate_block : Bytes → B256 → Call W ValidationResult String

-- The two closures.
abbrev pub BuildPayloadFn : Type 0 → Type 0
BuildPayloadFn W = BuildPayloadRequest → Call W BuiltPayload String

abbrev pub ValidateBlockFn : Type 0 → Type 0
ValidateBlockFn W = ValidateBlockRequest → Call W ValidationResult String

-- A payload builder by two closures.
pub record EngineApiPayloadBuilder (W : Type 0) : Type 0 where
  pub build_fn : BuildPayloadFn W
  pub validate_fn : ValidateBlockFn W

abbrev pub create_reth_payload_builder :
    {W : Type 0} → BuildPayloadFn W → ValidateBlockFn W → EngineApiPayloadBuilder W
create_reth_payload_builder build_fn validate_fn = record {
  build_fn = build_fn;
  validate_fn = validate_fn;
}

abbrev pub as_payload_builder : {W : Type 0} → EngineApiPayloadBuilder W → PayloadBuilder W
as_payload_builder b = record {
  build_payload = λ request. b.build_fn request;
  validate_block = λ block_bytes parent_hash.
      b.validate_fn (record { block_bytes = block_bytes; parent_hash = parent_hash });
}

-- alloy's `ForkchoiceState` and `PayloadAttributes`.
pub record ForkchoiceState : Type 0 where
  pub head_block_hash : B256
  pub safe_block_hash : B256
  pub finalized_block_hash : B256

pub record PayloadAttributes : Type 0 where
  pub timestamp : ℕ
  pub prev_randao : B256
  pub suggested_fee_recipient : Bytes
  pub withdrawals : Option (List Bytes)
  pub parent_beacon_block_root : Option B256
  pub slot_number : Option ℕ
  pub target_gas_limit : Option ℕ

abbrev pub zero_address : Bytes
zero_address = replicate 20 0

unfoldable pub build_payload_attributes : B256 → ℕ → PayloadAttributes
build_payload_attributes _parent_hash timestamp = record {
  timestamp = timestamp;
  prev_randao = zero_hash;
  suggested_fee_recipient = zero_address;
  withdrawals = some [];
  parent_beacon_block_root = some zero_hash;
  slot_number = none;
  target_gas_limit = none;
}

unfoldable pub build_payload_attributes_from_request :
    BuildPayloadRequest → ForkchoiceState × PayloadAttributes
unfolding build_payload_attributes
build_payload_attributes_from_request req = (
  record {
    head_block_hash = req.parent_hash;
    safe_block_hash = req.parent_hash;
    finalized_block_hash = req.parent_hash;
  },
  build_payload_attributes req.parent_hash req.timestamp,
)
