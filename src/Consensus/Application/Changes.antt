-- ===== src/Consensus/Application/Changes.antt =====
-- What one message can do to the stores: nothing, record one proposal, or record one accepted block.
use allegro.Prelude.{
  ℕ, ◌/◌, ◌≤◌, u64_max, ◌≡◌, refl, ◌∷◌, [], ◌++◌, Option, none, some, Result, ok, err, arith, inl,
  inr, Option-cases, Bool-cases, nat_eqb,
}
use allegro.Prelude.Dict.{get, insert}
use allegro.Prelude.Lock.{write_guard}
use Prim.Native.String.{String}
use allegro.Primitives.Digest.{Bytes, digest_eq, public_key_eq}
use allegro.Consensus.Validators.{set_lookup}
use allegro.Consensus.Executor.{
  BuiltPayload, BuildPayloadRequest, BlockMeta, ValidationResult, valid, invalid, PayloadBuilder,
}
use allegro.Consensus.Application.{
  Actor, BlockInfo, Message, propose, verify, broadcast, Propose, Verify, verified_info,
  proposed_info, built_digest, handle_verify, handle_propose, propose_request, after_build,
  after_validate, find_block, verify_bytes, step, count_proposal,
}

pub record SameStores (s s' : Actor) : Type 0 where
  pub same_validators : s'.validators ≡ s.validators
  pub same_info : s'.block_info ≡ s.block_info
  pub same_pending : s'.pending_blocks ≡ s.pending_blocks
  pub same_received : s'.received_blocks ≡ s.received_blocks
  pub same_proposals : s'.proposals ≡ s.proposals

-- A proposal that the builder answered.
pub record Proposes {W : Type 0} (builder : PayloadBuilder W) (s s' : Actor) : Type 0 where
  pub msg : Propose
  pub request : BuildPayloadRequest
  pub world : W
  pub payload : BuiltPayload
  pub asked : request.timestamp_millis / 1000 ≡ request.timestamp
  pub in_range : request.timestamp_millis ≤ u64_max
  pub built : (builder.build_payload request world).0 ≡ ok payload
  pub same_validators : s'.validators ≡ s.validators
  pub new_info :
      s'.block_info
      ≡ write_guard
          (λ infos. insert infos (built_digest payload) (proposed_info msg request payload))
          s.block_info
  pub new_pending :
      s'.pending_blocks
      ≡ write_guard
          (λ blocks. insert blocks (built_digest payload) payload.block_bytes)
          s.pending_blocks
  pub same_received : s'.received_blocks ≡ s.received_blocks
  pub new_proposals : s'.proposals ≡ write_guard (λ ds. ds ++ built_digest payload ∷ []) s.proposals

-- A block that was found, judged valid and recorded.
pub record Records {W : Type 0} (builder : PayloadBuilder W) (s s' : Actor) : Type 0 where
  pub msg : Verify
  pub bytes : Bytes
  pub world : W
  pub meta : BlockMeta
  pub found : find_block msg.payload s ≡ some bytes
  pub judged : (builder.validate_block bytes msg.parent_digest.inner world).0 ≡ ok (valid meta)
  pub timed : meta.timestamp_millis / 1000 ≡ meta.timestamp
  pub same_validators : s'.validators ≡ s.validators
  pub new_info :
      s'.block_info
      ≡ write_guard (λ infos. insert infos msg.payload (verified_info msg meta)) s.block_info
  pub same_pending : s'.pending_blocks ≡ s.pending_blocks
  pub same_received : s'.received_blocks ≡ s.received_blocks
  pub same_proposals : s'.proposals ≡ s.proposals

pub data Change {W : Type 0} (builder : PayloadBuilder W) (s s' : Actor) : Type 0 where
  keep : SameStores s s' → Change builder s s'
  proposes : Proposes builder s s' → Change builder s s'
  records : Records builder s s' → Change builder s s'

pub propose_request_in_range :
    (clock : Option ℕ) (msg : Propose) (parent : Option BlockInfo)
    → (propose_request clock msg parent).timestamp_millis ≤ u64_max
unfolding propose_request
propose_request_in_range clock msg parent = ground arith

module _ {W : Type 0} (builder : PayloadBuilder W) where
  after_build-Change :
      (msg : Propose) (request : BuildPayloadRequest) (w : W) (built : Result BuiltPayload String)
      (s : Actor)
      → request.timestamp_millis / 1000 ≡ request.timestamp
      → request.timestamp_millis ≤ u64_max
      → (builder.build_payload request w).0 ≡ built
      → Change builder s (after_build msg request built (count_proposal s)).1
  unfolding after_build
  after_build-Change msg request w (err e) s a r b = keep (ground arith)
  after_build-Change msg request w (ok payload) s a r b = proposes (record {
    msg = msg;
    request = request;
    world = w;
    payload = payload;
    asked = a;
    in_range = r;
    built = b;
    same_validators = refl;
    new_info = refl;
    new_pending = refl;
    same_received = refl;
    new_proposals = refl;
  })

  handle_propose-Change :
      (clock : Option ℕ) (msg : Propose) (s : Actor) (w : W)
      → Change builder s (handle_propose builder clock msg s w).1
  unfolding handle_propose
  handle_propose-Change clock msg s w = elim (Bool-cases s.block_info.poisoned) [
    | inl p ↦ simp p (keep (ground arith))
    | inr p ↦ simp p (
        after_build-Change msg
          (propose_request clock msg (get s.block_info.contents msg.parent_digest)) w _ s refl
          (propose_request_in_range clock msg (get s.block_info.contents msg.parent_digest)) refl)
  ]

  after_validate-Change :
      (msg : Verify) (bytes : Bytes) (w : W) (verdict : Result ValidationResult String) (s : Actor)
      → find_block msg.payload s ≡ some bytes
      → (builder.validate_block bytes msg.parent_digest.inner w).0 ≡ verdict
      → Change builder s (after_validate msg verdict s).1
  unfolding after_validate
  after_validate-Change msg bytes w (err e) s f j = keep (ground arith)
  after_validate-Change msg bytes w (ok (invalid reason)) s f j = keep (ground arith)
  after_validate-Change msg bytes w (ok (valid meta)) s f j =
      elim (Bool-cases (nat_eqb (meta.timestamp_millis / 1000) meta.timestamp)) [
        | inl timely ↦ rw timely (
            records (record {
              msg = msg;
              bytes = bytes;
              world = w;
              meta = meta;
              found = f;
              judged = j;
              timed = ground arith;
              same_validators = refl;
              new_info = refl;
              same_pending = refl;
              same_received = refl;
              same_proposals = refl;
            }))
        | inr off ↦ rw off (keep (ground arith))
      ]

  verify_bytes-Change :
      (msg : Verify) (found : Option Bytes) (s : Actor) (w : W)
      → find_block msg.payload s ≡ found
      → Change builder s (verify_bytes builder msg found s w).1
  unfolding verify_bytes
  verify_bytes-Change msg none s w f = keep (ground arith)
  verify_bytes-Change msg (some bytes) s w f = after_validate-Change msg bytes w _ s f refl

  handle_verify-Change :
      (msg : Verify) (s : Actor) (w : W) → Change builder s (handle_verify builder msg s w).1
  unfolding handle_verify
  handle_verify-Change msg s w = elim (Option-cases (set_lookup s.validators msg.proposer)) [
    | inl unknown ↦ rw (unknown, handle_verify) (keep (ground arith))
    | inr (address, known) ↦ elim (Bool-cases s.pending_blocks.poisoned) [
      | inl p ↦ rw (known, handle_verify) (simp p (keep (ground arith)))
      | inr p ↦
          rw (known, handle_verify)
            (simp p (verify_bytes-Change msg (find_block msg.payload s) s w refl))
    ]
  ]

  pub step-Change :
      (clock : Option ℕ) (msg : Message) (s : Actor) (w : W)
      → Change builder s (step builder clock msg s w).0
  unfolding step
  step-Change clock (propose msg) s w = handle_propose-Change clock msg s w
  step-Change clock (verify msg) s w = handle_verify-Change msg s w
  step-Change clock (broadcast d) s w = keep (ground arith)

-- No change poisons a lock.
pub Change-info_lock :
    {W : Type 0} (builder : PayloadBuilder W) (s s' : Actor)
    → Change builder s s'
    → s'.block_info.poisoned ≡ s.block_info.poisoned
Change-info_lock builder s s' (keep k) = ground (arith, k.same_info)
Change-info_lock builder s s' (proposes p) = ground (arith, p.new_info)
Change-info_lock builder s s' (records r) = ground (arith, r.new_info)

pub Change-pending_lock :
    {W : Type 0} (builder : PayloadBuilder W) (s s' : Actor)
    → Change builder s s'
    → s'.pending_blocks.poisoned ≡ s.pending_blocks.poisoned
Change-pending_lock builder s s' (keep k) = ground (arith, k.same_pending)
Change-pending_lock builder s s' (proposes p) = ground (arith, p.new_pending)
Change-pending_lock builder s s' (records r) = ground (arith, r.same_pending)
