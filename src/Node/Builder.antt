-- ===== src/Node/Builder.antt =====
-- crates/node/src/builder.rs: the payload builder over reth's engine API, and the tracker of the
-- last finalized block, which the finalizer writes and the build closure reads.
pub mod Retry
pub mod Agreement
pub mod Stepwise
use allegro.Prelude.{
  ℕ, zero, suc, Option, none, some, Result, ok, err, Call, pure, raise, lift, map_err_call, ok_or,
  map_err, ◌>>=◌, ◌>>◌, saturating_mul,
}
use Prim.Native.String.{String}
use Prim.Native.String
use allegro.Primitives.Digest.{Bytes, B256}
use allegro.Consensus.Executor.{
  BuiltPayload, BlockMeta, ValidationResult, BuildPayloadRequest, ValidateBlockRequest,
  EngineApiPayloadBuilder, create_reth_payload_builder, ForkchoiceState, PayloadAttributes,
  build_payload_attributes_from_request,
}
use allegro.Consensus.Executor
use allegro.Node.Reth.{
  Engine, EthFormat, PayloadStatus, valid, syncing, accepted, invalid, ForkchoiceUpdated,
}

-- `ForkchoiceTracker`, a parking_lot lock: the hash and the number.
abbrev pub Tracker : Type 0
Tracker = B256 × ℕ

abbrev pub new_tracker : B256 → Tracker
new_tracker genesis_hash = (genesis_hash, 0)

abbrev pub set_finalized : B256 → ℕ → Tracker → Tracker
set_finalized hash number tracker = (hash, number)

-- `…?` on an `Option` in a chain of calls.
abbrev or_raise : {W A E : Type 0} → Option A → E → Call W A E
or_raise none e = raise e
or_raise (some a) e = pure a

abbrev pub attempts : ℕ
attempts = 5

-- The forkchoice state of a build: the parent as head, over the last finalized block.
abbrev pub build_state : BuildPayloadRequest → Tracker → ForkchoiceState
build_state req tracker = record {
  head_block_hash = req.parent_hash;
  safe_block_hash = tracker.0;
  finalized_block_hash = tracker.0;
}

-- One round of the retry loop: a payload id, or what is left in `last_err`.
unfoldable pub round_result : Result ForkchoiceUpdated String → Result ℕ String
round_result (ok fcu) = ok_or fcu.payload_id "engine returned no payload id"
round_result (err e) = err (String.◌++◌ "fork_choice_updated error: " e)

module _ {W B X : Type 0} (engine : Engine W B X) where
  -- The loop of at most five forkchoice updates: it stops at the first payload id; a round that
  -- gives none leaves its error. The pause of 50 ms before a retry is not modelled.
  unfoldable pub request_payload :
      ForkchoiceState → PayloadAttributes → ℕ → String → Call W ℕ String
  unfolding round_result
  request_payload fcs attrs zero last_err w = (err last_err, w)
  request_payload fcs attrs (suc attempts) last_err w =
      let (answer, w') = engine.fork_choice_updated fcs (some attrs) w in
      elim (round_result answer) [
        | ok id ↦ (ok id, w')
        | err e ↦ request_payload fcs attrs attempts e w'
      ]

  unfoldable pub resolve : ℕ → Call W B String
  resolve payload_id w =
      let (job, w') = engine.resolve_kind payload_id w in
      elim job [
        | none ↦ (err "payload job not found", w')
        | some (ok block) ↦ (ok block, w')
        | some (err e) ↦ (err (String.◌++◌ "payload build error: " e), w')
      ]

module _ {B X : Type 0} (eth : EthFormat B X) where
  -- The verdict of the self-import.
  unfoldable pub imported : PayloadStatus → Result (Unit {0}) String
  imported valid = ok tt
  imported accepted = ok tt
  imported other =
      err (String.◌++◌ "self-import rejected (" (String.◌++◌ (eth.debug_status other) ")"))

  unfoldable pub payload_of : B → BuiltPayload
  payload_of block = record {
    block_bytes = eth.encode block;
    block_hash = eth.header_hash block;
    block_number = eth.header_number block;
    timestamp_millis = saturating_mul (eth.header_timestamp block) 1000;
  }

  unfoldable pub meta_of : B → BlockMeta
  meta_of block = record {
    hash = eth.header_hash block;
    number = eth.header_number block;
    timestamp = eth.header_timestamp block;
    timestamp_millis = saturating_mul (eth.header_timestamp block) 1000;
  }

  -- The answer to a proposal, by the engine's verdict on its block.
  unfoldable pub judge : B → PayloadStatus → Result ValidationResult String
  unfolding meta_of
  judge block valid = ok (Executor.valid (meta_of block))
  judge block (invalid validation_error) = ok (Executor.invalid validation_error)
  judge block syncing = err "parent unknown to execution layer (syncing)"
  judge block accepted = err "parent unknown to execution layer (syncing)"

module _ {W B X : Type 0} (eth : EthFormat B X) (engine : Engine W B X) where
  -- The self-import of a built block, and what is returned of it.
  unfoldable pub import_block : B → Call W BuiltPayload String
  unfolding imported payload_of
  import_block block = do
    status ←
        map_err_call (String.◌++◌ "self-import new_payload: ")
          (engine.new_payload (eth.block_to_payload block))
    lift (imported eth status)
    pure (payload_of eth block)

  -- The build closure.
  unfoldable pub build : Tracker → BuildPayloadRequest → Call W BuiltPayload String
  unfolding request_payload resolve import_block build_payload_attributes_from_request
  build tracker req = do
    let attrs = (build_payload_attributes_from_request req).1
    payload_id ← request_payload engine (build_state req tracker) attrs attempts ""
    block ← resolve engine payload_id
    import_block block

  -- The validate closure. It does not read `req.parent_hash`.
  unfoldable pub validate : ValidateBlockRequest → Call W ValidationResult String
  unfolding judge
  validate req = do
    block ← lift (map_err (String.◌++◌ "rlp decode: ") (eth.decode req.block_bytes))
    status ←
        map_err_call (String.◌++◌ "engine new_payload error: ")
          (engine.new_payload (eth.block_to_payload block))
    lift (judge eth block status)

-- `create_engine_payload_builder`. The tracker is shared: it is read out of the state at each build.
unfoldable pub create_engine_payload_builder :
    {W B X : Type 0} → EthFormat B X → Engine W B X → EngineApiPayloadBuilder (Tracker × W)
create_engine_payload_builder eth engine =
    create_reth_payload_builder
      (λ req (tracker, w). let (r, w') = build eth engine tracker req w in (r, (tracker, w')))
      (λ req (tracker, w). let (r, w') = validate eth engine req w in (r, (tracker, w')))
