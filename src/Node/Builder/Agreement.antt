-- ===== src/Node/Builder/Agreement.antt =====
-- What the proposer records of a block is what its verifiers derive from it.
use allegro.Prelude.{
  ℕ, ◌/◌, ◌≤◌, ◌≡◌, ◌∙◌, refl, ap, some, Result, ok, err, Call, arith, inl, inr, >>=-eq-ok,
  map_err-eq-ok, ◌>>=◌, u64_max, lift, map_err, map_err_call,
}
use Prim.Native.String.{String}
use Prim.Native.String
use allegro.Primitives.Digest.{B256}
use allegro.Consensus.Executor.{
  BuiltPayload, BlockMeta, ValidationResult, BuildPayloadRequest, ValidateBlockRequest,
  as_payload_builder, build_payload_attributes_from_request, PayloadAttributes, ForkchoiceState,
}
use allegro.Consensus.Executor
use allegro.Consensus.Application.Running.{IsPunctual}
use allegro.Node.Reth.{
  Engine, EthFormat, Decodes, Honours, PayloadStatus, valid, accepted, syncing, invalid,
  ForkchoiceUpdated,
}
use allegro.Node.Builder.{
  Tracker, request_payload, resolve, payload_of, meta_of, judge, import_block, build, build_state,
  attempts, validate, create_engine_payload_builder,
}
use allegro.Node.Builder.Retry.{request_payload_tries, payload_id_of, updated, updated_last}

-- A block that a successful build stands for.
pub record Builds {B X : Type 0} (eth : EthFormat B X) (req : BuildPayloadRequest)
    (payload : BuiltPayload) : Type 0 where
  pub block : B
  pub payload_eq : payload ≡ payload_of eth block
  pub on_time : eth.header_timestamp block ≡ req.timestamp

pub judge-valid :
    {B X : Type 0} (eth : EthFormat B X) (block : B) (status : PayloadStatus) (meta : BlockMeta)
    → judge eth block status ≡ ok (Executor.valid meta)
    → (status ≡ valid) × (meta ≡ meta_of eth block)
unfolding judge
judge-valid eth block valid meta h = (refl, ground arith)
judge-valid eth block syncing meta h = cc
judge-valid eth block accepted meta h = cc
judge-valid eth block (invalid e) meta h = cc

given_id :
    (answer : Result ForkchoiceUpdated String) (id : ℕ)
    → payload_id_of answer ≡ some id
    → (fcu : ForkchoiceUpdated) × (answer ≡ ok fcu) × (fcu.payload_id ≡ some id)
given_id (ok fcu) id h = (fcu, refl, h)
given_id (err e) id h = cc

module _ {B X : Type 0} (eth : EthFormat B X) where
  pub seconds_kept :
      (req : BuildPayloadRequest) (payload : BuiltPayload)
      → Builds eth req payload
      → req.timestamp ≤ u64_max / 1000
      → (payload.timestamp_millis / 1000 ≡ req.timestamp) × (payload.timestamp_millis ≤ u64_max)
  unfolding payload_of
  seconds_kept req payload b fits = ground (arith, b.payload_eq, b.on_time)

  pub meta_in_range :
      (block : B) (meta : BlockMeta) → meta ≡ meta_of eth block → meta.timestamp_millis ≤ u64_max
  unfolding meta_of
  meta_in_range block meta e = ground arith

module _ {W B X : Type 0} (eth : EthFormat B X) (engine : Engine W B X) where
  pub import_block-payload :
      (block : B) (w : W) {payload : BuiltPayload}
      → (import_block eth engine block w).0 ≡ ok payload
      → payload ≡ payload_of eth block
  unfolding import_block
  import_block-payload block w h = ground arith

  pub resolve-block :
      (id : ℕ) (w : W) {block : B}
      → (resolve engine id w).0 ≡ ok block
      → (engine.resolve_kind id w).0 ≡ some (ok block)
  unfolding resolve
  resolve-block id w h = ground arith

  -- The id that was found came from an update with these attributes, just before.
  found_update :
      (fcs : ForkchoiceState) (attrs : PayloadAttributes) (id : ℕ) (n : ℕ) (w : W)
      → (request_payload engine fcs attrs n "" w).0 ≡ ok id
      → (v : W) × (fcu : ForkchoiceUpdated) × ((engine.fork_choice_updated fcs (some attrs) v).0
          ≡ ok fcu)
        × (fcu.payload_id ≡ some id)
        × ((request_payload engine fcs attrs n "" w).1
            ≡ (engine.fork_choice_updated fcs (some attrs) v).1)
  found_update fcs attrs id n w h = elim (request_payload_tries engine fcs attrs n "" w) [
    | inr m ↦ absurd (ground (arith, m.result))
    | inl f ↦
        let v = updated engine fcs attrs f.k w in
        let (fcu, answered, given) =
          given_id (engine.fork_choice_updated fcs (some attrs) v).0 id
            (ground (arith, f.result, f.given)) in
        (v, fcu, answered, given, ground (arith, f.result, updated_last engine fcs attrs f.k w))
  ]

  pub build-Builds :
      Honours eth engine
      → (tracker : Tracker) (req : BuildPayloadRequest) (w : W) (payload : BuiltPayload)
      → (build eth engine tracker req w).0 ≡ ok payload
      → Builds eth req payload
  unfolding build
  build-Builds honours tracker req w payload h =
      let fcs = build_state req tracker in
      let attrs = (build_payload_attributes_from_request req).1 in
      let request = request_payload engine fcs attrs attempts "" in
      let (id, requested, h1) =
        >>=-eq-ok request (λ id. resolve engine id >>= import_block eth engine) w h in
      let (block, resolved, h2) =
        >>=-eq-ok (resolve engine id) (import_block eth engine) (request w).1 h1 in
      let (v, fcu, answered, given, after) = found_update fcs attrs id attempts w requested in
      record {
        block = block;
        payload_eq = import_block-payload block _ h2;
        on_time =
            honours.timestamp_kept fcs attrs v fcu id block answered given
              (rw (← after) (resolve-block id (request w).1 resolved));
      }

  -- A valid verdict is the engine's, on the block that was decoded, and describes that block.
  pub validate-valid :
      (req : ValidateBlockRequest) (v : W) (meta : BlockMeta)
      → (validate eth engine req v).0 ≡ ok (Executor.valid meta)
      → (block : B) × (eth.decode req.block_bytes ≡ ok block)
        × ((engine.new_payload (eth.block_to_payload block) v).0 ≡ ok valid)
        × (meta ≡ meta_of eth block)
  unfolding validate
  validate-valid req v meta h =
      let (block, decoded, h1) =
        >>=-eq-ok (lift (map_err (String.◌++◌ "rlp decode: ") (eth.decode req.block_bytes)))
          (λ block. submit_block block >>= λ status. lift (judge eth block status)) v h in
      let (status, answered, h2) =
        >>=-eq-ok (submit_block block) (λ status. lift (judge eth block status)) v h1 in
      let (passed, described) = judge-valid eth block status meta h2 in
      (block, map_err-eq-ok _ _ decoded, map_err-eq-ok _ _ (answered ∙ ap ok passed), described)
    where
      submit_block : B → Call W PayloadStatus String
      submit_block block =
          map_err_call (String.◌++◌ "engine new_payload error: ")
            (engine.new_payload (eth.block_to_payload block))

  -- The builder over reth's engine meets what the application actor needs of the execution layer: a
  -- block that is built at seconds whose milliseconds fit in 64 bits has milliseconds in these
  -- seconds, and every valid verdict has milliseconds in 64 bits. The engine keeps the timestamp it
  -- is asked for.
  pub engine_builder-IsPunctual :
      Honours eth engine
      → IsPunctual (as_payload_builder (create_engine_payload_builder eth engine))
  unfolding create_engine_payload_builder
  engine_builder-IsPunctual honours = record {
    built = λ req (tracker, w) payload fits h.
        seconds_kept eth req payload (build-Builds honours tracker req w payload h) fits;
    judged = λ bytes parent (tracker, w) meta h.
        let (block, decoded, passed, described) =
          validate-valid (record { block_bytes = bytes; parent_hash = parent }) w meta h in
        meta_in_range eth block meta described;
  }

module _ {V W B X : Type 0} (eth : EthFormat B X) (engine : Engine W B X)
    (peer : Engine V B X) where
  -- If one node built a block and another judges its bytes valid, whatever the parent hash, the
  -- verdict has the hash, the number and the milliseconds that the builder reported and the seconds
  -- that it was asked for. The builder's engine keeps the timestamp it is asked for, and encoded
  -- blocks decode.
  pub validate-build :
      Decodes eth
      → Honours eth engine
      → (tracker : Tracker) (req : BuildPayloadRequest) (w : W) (payload : BuiltPayload)
      → (build eth engine tracker req w).0 ≡ ok payload
      → (v : V) (parent : B256) (meta : BlockMeta)
      → (validate eth peer (record { block_bytes = payload.block_bytes; parent_hash = parent }) v).0
        ≡ ok (Executor.valid meta)
      → (meta.hash ≡ payload.block_hash)
        × (meta.number ≡ payload.block_number)
        × (meta.timestamp ≡ req.timestamp)
        × (meta.timestamp_millis ≡ payload.timestamp_millis)
  unfolding payload_of meta_of
  validate-build decodes honours tracker req w payload h v parent meta j =
      let b = build-Builds eth engine honours tracker req w payload h in
      let (block, decoded, passed, described) = validate-valid eth peer _ v meta j in
      let same : block ≡ b.block =
        ground (arith, decoded, b.payload_eq, decodes.decode-encode b.block) in
      ground (arith, described, same, b.payload_eq, b.on_time)
