-- ===== src/Node/Reth.antt =====
-- What the source calls of reth and alloy: the engine handle, the payload service, and the
-- standard Ethereum block. All of it is a parameter; `W` is the state of the execution layer,
-- `B` a block and `X` the engine's form of it.
use allegro.Prelude.{ℕ, ◌≡◌, Bool, true, false, Option, some, Result, ok, Call}
use Prim.Native.String.{String}
use allegro.Primitives.Digest.{Bytes, B256, IsB256}
use allegro.Consensus.Executor.{ForkchoiceState, PayloadAttributes}

-- `PayloadStatusEnum`.
pub data PayloadStatus : Type 0 where
  valid syncing accepted : PayloadStatus
  invalid : String → PayloadStatus

abbrev pub is_valid : PayloadStatus → Bool
is_valid valid = true
is_valid syncing = false
is_valid accepted = false
is_valid (invalid _) = false

pub record ForkchoiceUpdated : Type 0 where
  pub payload_status : PayloadStatus
  pub payload_id : Option ℕ

-- The engine handle and the payload service.
pub record Engine (W B X : Type 0) : Type 0 where
  pub fork_choice_updated :
      ForkchoiceState → Option PayloadAttributes → Call W ForkchoiceUpdated String
  pub new_payload : X → Call W PayloadStatus String
  -- `PayloadBuilderHandle::resolve_kind`, waiting for a pending build; `none`: no such job.
  pub resolve_kind : ℕ → W → Option (Result B String) × W

-- The block: its header, its RLP, its form for the engine, and the `{:?}` of the engine's verdict.
pub record EthFormat (B X : Type 0) : Type 0 where
  pub block_to_payload : B → X
  pub header_hash : B → B256
  pub header_number : B → ℕ
  pub header_timestamp : B → ℕ
  pub encode : B → Bytes
  pub decode : Bytes → Result B String
  pub debug_status : PayloadStatus → String

-- Documented behaviour of alloy_rlp: an encoded block decodes.
pub record Decodes {B X : Type 0} (eth : EthFormat B X) : Type 0 where
  pub decode-encode : (block : B) → eth.decode (eth.encode block) ≡ ok block

-- The hash of a block has 32 bytes, and no two blocks of different numbers or times are known that
-- have one hash.
pub record Hashes {B X : Type 0} (eth : EthFormat B X) : Type 0 where
  pub sized : (block : B) → IsB256 (eth.header_hash block)
  pub distinct :
      (b c : B)
      → eth.header_hash b ≡ eth.header_hash c
      → (eth.header_number b ≡ eth.header_number c)
        × (eth.header_timestamp b ≡ eth.header_timestamp c)

-- Documented behaviour of the engine API: a payload that was started by a forkchoice update with
-- attributes has their timestamp.
pub record Honours {W B X : Type 0} (eth : EthFormat B X) (engine : Engine W B X) : Type 0 where
  pub timestamp_kept :
      (state : ForkchoiceState) (attrs : PayloadAttributes) (w : W) (fcu : ForkchoiceUpdated)
      (id : ℕ) (block : B)
      → (engine.fork_choice_updated state (some attrs) w).0 ≡ ok fcu
      → fcu.payload_id ≡ some id
      → (engine.resolve_kind id (engine.fork_choice_updated state (some attrs) w).1).0
        ≡ some (ok block)
      → eth.header_timestamp block ≡ attrs.timestamp

-- The same of a payload service whose jobs run while other calls are made: a payload id stands for
-- its seconds from the forkchoice update that started it on, whatever is called in between and
-- however the execution layer goes on by itself.
pub record Jobs {W B X : Type 0} (eth : EthFormat B X) (engine : Engine W B X) : Type 1 where
  pub Started : W → ℕ → ℕ → Type 0
  pub GoesOn : W → W → Type 0
  pub starts :
      (state : ForkchoiceState) (attrs : PayloadAttributes) (w : W) (fcu : ForkchoiceUpdated)
      (id : ℕ)
      → (engine.fork_choice_updated state (some attrs) w).0 ≡ ok fcu
      → fcu.payload_id ≡ some id
      → Started (engine.fork_choice_updated state (some attrs) w).1 id attrs.timestamp
  pub resolves :
      (w : W) (id seconds : ℕ) (block : B)
      → Started w id seconds
      → (engine.resolve_kind id w).0 ≡ some (ok block)
      → eth.header_timestamp block ≡ seconds
  pub kept_update :
      (state : ForkchoiceState) (attrs : Option PayloadAttributes) (w : W) (id seconds : ℕ)
      → Started w id seconds
      → Started (engine.fork_choice_updated state attrs w).1 id seconds
  pub kept_alone :
      (w w' : W) (id seconds : ℕ) → GoesOn w w' → Started w id seconds → Started w' id seconds

pub Jobs-Honours :
    {W B X : Type 0} (eth : EthFormat B X) (engine : Engine W B X)
    → Jobs eth engine
    → Honours eth engine
Jobs-Honours eth engine jobs = record {
  timestamp_kept = λ state attrs w fcu id block answered given resolved.
      jobs.resolves (engine.fork_choice_updated state (some attrs) w).1 id attrs.timestamp block
        (jobs.starts state attrs w fcu id answered given) resolved;
}
