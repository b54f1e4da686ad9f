-- ===== src/Consensus/Application.antt =====
-- crates/consensus/src/application.rs: the application actor between the simplex engine and the
-- execution layer. A handler returns what it answers (`none`: the responder is dropped), the new
-- actor, and the new state of the execution layer.
pub mod Proposing
pub mod Verifying
pub mod Recording
pub mod Changes
pub mod Running
pub mod Backing
pub mod Rooting
pub mod Awaiting
pub mod Counting
use allegro.Prelude.{
  ℕ, ◌+◌, ◌/◌, Bool, true, false, not, List, [], ◌∷◌, ◌++◌, Option, none, some, Result, ok, err,
  wrap_u64, saturating_add, max_u64, nat_eqb, if◌then◌else◌,
}
use allegro.Prelude.Dict.{Dict, get, insert}
use allegro.Prelude.Lock.{Lock, new_lock, write_guard}
use Prim.Native.String.{String}
use allegro.Primitives.Digest.{
  Bytes, B256, Digest, PublicKey, zero_hash, empty_digest, digest_eq, public_key_eq,
}
use allegro.Consensus.Plan.{Plan}
use allegro.Consensus.Metrics.{
  Metrics, on_metrics, inc_blocks_proposed, inc_blocks_verified, inc_errors, inc_failed_validations,
}
use allegro.Consensus.Validators.{ValidatorSet, set_lookup}
use allegro.Consensus.Executor.{
  BuiltPayload, BlockMeta, ValidationResult, valid, invalid, BuildPayloadRequest, PayloadBuilder,
}

pub record BlockInfo : Type 0 where
  pub number : ℕ
  pub hash : B256
  pub view : ℕ
  pub proposer : PublicKey
  pub timestamp : ℕ
  pub timestamp_millis : ℕ

abbrev pub Blocks : Type 0
Blocks = Dict Digest Bytes

abbrev pub BlockInfos : Type 0
BlockInfos = Dict Digest BlockInfo

-- `commonware_consensus::types::Round`.
pub record Round : Type 0 where
  pub epoch : ℕ
  pub view : ℕ

pub record Propose : Type 0 where
  pub parent_view : ℕ
  pub parent_digest : Digest
  pub round : Round
  pub leader : PublicKey

pub record Verify : Type 0 where
  pub parent_view : ℕ
  pub parent_digest : Digest
  pub payload : Digest
  pub proposer : PublicKey
  pub round : Round

pub record Broadcast : Type 0 where
  pub digest : Digest
  pub plan : Plan

pub data Message : Type 0 where
  propose : Propose → Message
  verify : Verify → Message
  broadcast : Broadcast → Message

-- The actor; the three stores and the metrics are shared with the relay, the receiver, the reporter
-- and the finalizer, which stand beside it in the model of the engine.
pub record Actor : Type 0 where
  pub validators : ValidatorSet
  pub proposal_count : ℕ
  pub proposals : Lock (List Digest)
  pub pending_blocks : Lock Blocks
  pub received_blocks : Lock Blocks
  pub block_info : Lock BlockInfos
  pub metrics : Option Metrics

abbrev pub genesis_info : PublicKey → B256 → ℕ → ℕ → BlockInfo
genesis_info genesis_key genesis_hash genesis_timestamp genesis_timestamp_millis = record {
  number = 0;
  hash = genesis_hash;
  view = 0;
  proposer = genesis_key;
  timestamp = genesis_timestamp;
  timestamp_millis = genesis_timestamp_millis;
}

-- `Actor::new`; `genesis_key` is `PrivateKey::from_seed(0).public_key()`.
unfoldable pub new_actor :
    ValidatorSet
    → Lock (List Digest)
    → Lock Blocks
    → Lock Blocks
    → Lock BlockInfos
    → Option Metrics
    → PublicKey
    → B256
    → ℕ
    → ℕ
    → Actor
new_actor validators proposals pending received infos metrics key hash timestamp millis = record {
  validators = validators;
  proposal_count = 0;
  proposals = proposals;
  pending_blocks = pending;
  received_blocks = received;
  block_info =
      write_guard (λ infos. insert infos empty_digest (genesis_info key hash timestamp millis))
        infos;
  metrics = metrics;
}

-- The parent's number, hash and milliseconds, or the defaults of `unwrap_or`.
abbrev pub parent_of : Option BlockInfo → ℕ × B256 × ℕ
parent_of none = (0, zero_hash, 0)
parent_of (some info) = (info.number, info.hash, info.timestamp_millis)

-- `duration_since(UNIX_EPOCH).unwrap_or_default().as_millis() as u64`; `none` is a clock that is
-- set before the epoch.
abbrev pub now_millis : Option ℕ → ℕ
now_millis none = 0
now_millis (some millis) = wrap_u64 millis

unfoldable pub propose_request : Option ℕ → Propose → Option BlockInfo → BuildPayloadRequest
propose_request clock msg parent =
    let (parent_number, parent_hash, parent_millis) = parent_of parent in
    let timestamp_millis = max_u64 (now_millis clock) (saturating_add parent_millis 1) in
    record {
      parent_hash = parent_hash;
      parent_number = parent_number;
      parent_view = msg.parent_view;
      parent_digest = msg.parent_digest;
      epoch = msg.round.epoch;
      view = msg.round.view;
      proposer = msg.leader.key_bytes;
      timestamp = timestamp_millis / 1000;
      timestamp_millis = timestamp_millis;
    }

abbrev pub proposed_info : Propose → BuildPayloadRequest → BuiltPayload → BlockInfo
proposed_info msg request payload = record {
  number = payload.block_number;
  hash = payload.block_hash;
  view = msg.round.view;
  proposer = msg.leader;
  timestamp = request.timestamp;
  timestamp_millis = payload.timestamp_millis;
}

abbrev pub built_digest : BuiltPayload → Digest
built_digest payload = record { inner = payload.block_hash }

-- The rest of `handle_propose`, once the builder has answered.
unfoldable pub after_build :
    Propose → BuildPayloadRequest → Result BuiltPayload String → Actor → Option Digest × Actor
after_build msg request (err e) s = (none, record s { metrics = on_metrics inc_errors s.metrics })
after_build msg request (ok payload) s =
    let digest = built_digest payload in
    (
      some digest,
      record s {
        block_info =
            write_guard (λ infos. insert infos digest (proposed_info msg request payload))
              s.block_info;
        pending_blocks =
            write_guard (λ blocks. insert blocks digest payload.block_bytes) s.pending_blocks;
        proposals = write_guard (λ ds. ds ++ digest ∷ []) s.proposals;
      },
    )

-- The count wraps around, as in a build without overflow checks; with them, the 2^64-th proposal panics.
abbrev pub count_proposal : Actor → Actor
count_proposal s = record s {
  proposal_count = wrap_u64 (s.proposal_count + 1);
  metrics = on_metrics inc_blocks_proposed s.metrics;
}

-- A rejected proposal, counted.
abbrev pub count_failed : Actor → Actor
count_failed s = record s { metrics = on_metrics inc_failed_validations s.metrics }

-- The bytes of a block, ours or a peer's; a poisoned store of received blocks has none.
unfoldable pub find_block : Digest → Actor → Option Bytes
find_block digest s = elim (get s.pending_blocks.contents digest) [
  | some bytes ↦ some bytes
  | none ↦ if s.received_blocks.poisoned then none else get s.received_blocks.contents digest
]

abbrev pub verified_info : Verify → BlockMeta → BlockInfo
verified_info msg meta = record {
  number = meta.number;
  hash = meta.hash;
  view = msg.round.view;
  proposer = msg.proposer;
  timestamp = meta.timestamp;
  timestamp_millis = meta.timestamp_millis;
}

-- The rest of `handle_verify`, once the builder has judged the block.
unfoldable pub after_validate : Verify → Result ValidationResult String → Actor → Bool × Actor
after_validate msg (ok (valid meta)) s =
    if not (nat_eqb (meta.timestamp_millis / 1000) meta.timestamp)
    then (false, count_failed s)
    else (
      true,
      record s {
        block_info =
            write_guard (λ infos. insert infos msg.payload (verified_info msg meta)) s.block_info;
        metrics = on_metrics inc_blocks_verified s.metrics;
      },
    )
after_validate msg (ok (invalid reason)) s = (false, count_failed s)
after_validate msg (err e) s =
    (false, count_failed (record s { metrics = on_metrics inc_errors s.metrics }))

module _ {W : Type 0} (builder : PayloadBuilder W) where
  unfoldable pub handle_propose : Option ℕ → Propose → Actor → W → Option Digest × Actor × W
  unfolding propose_request after_build
  handle_propose clock msg s w =
      let counted = count_proposal s in
      if s.block_info.poisoned
      then (none, counted, w)
      else (let request = propose_request clock msg (get s.block_info.contents msg.parent_digest) in
          let (built, w') = builder.build_payload request w in
          let (reply, s') = after_build msg request built counted in (reply, s', w'))

  -- The validation of a block whose bytes were looked up.
  unfoldable pub verify_bytes : Verify → Option Bytes → Actor → W → Bool × Actor × W
  unfolding after_validate
  verify_bytes msg none s w = (false, count_failed s, w)
  verify_bytes msg (some block_bytes) s w =
      let (verdict, w') = builder.validate_block block_bytes msg.parent_digest.inner w in
      let (answer, s') = after_validate msg verdict s in (answer, s', w')

  unfoldable pub handle_verify : Verify → Actor → W → Bool × Actor × W
  unfolding verify_bytes find_block
  handle_verify msg s w = elim (set_lookup s.validators msg.proposer) [
    | none ↦ (false, count_failed s, w)
    | some address ↦
        if s.pending_blocks.poisoned
        then (false, s, w)
        else verify_bytes msg (find_block msg.payload s) s w
  ]

  -- `handle_broadcast` only logs: the relay does the broadcast.
  unfoldable pub handle_broadcast : Broadcast → Actor → W → Actor × W
  handle_broadcast msg s w = (s, w)

  -- One round of the loop of `run`, at a reading of the clock.
  unfoldable pub step : Option ℕ → Message → Actor → W → Actor × W
  unfolding handle_propose handle_verify handle_broadcast
  step clock (propose msg) s w = let (reply, s', w') = handle_propose clock msg s w in (s', w')
  step clock (verify msg) s w = let (answer, s', w') = handle_verify msg s w in (s', w')
  step clock (broadcast msg) s w = handle_broadcast msg s w

  -- `run` handles the messages until the channel closes.
  unfoldable pub run : List (Option ℕ × Message) → Actor → W → Actor × W
  unfolding step
  run [] s w = (s, w)
  run ((clock, msg) ∷ msgs) s w = let (s', w') = step clock msg s w in run msgs s' w'
