-- ===== src/Examples/Scenario.antt =====
-- A leader that proposes a block on the genesis block, and a validator that receives and verifies it.
use allegro.Prelude.{ok, Bool, true, false, ℕ, List, [], ◌∷◌, Option, none, some, replicate}
use allegro.Prelude.Lock.{new_lock}
use allegro.Primitives.Digest.{Bytes, B256, Digest, PublicKey, zero_hash, empty_digest}
use allegro.Consensus.Plan
use allegro.Consensus.Metrics.{new_metrics}
use allegro.Consensus.Validators.{Address, ValidatorSet, v4}
use allegro.Consensus.Executor.{PayloadBuilder, BuiltPayload, BlockMeta}
use allegro.Consensus.Application.{
  Actor, BlockInfo, Message, propose, verify, broadcast, Propose, Verify, Round, genesis_info,
  handle_propose,
}
use allegro.Node.Builder.{Tracker}
use allegro.Network.{engine_builder}
use allegro.Consensus.Config.{default_config}
use allegro.Consensus.Engine.{Commonware, EngineConfig}
use allegro.Examples.Fixtures.{Queue, eth, engine}
use allegro.Examples.Texts.{key_from_seed}

abbrev pub leader_key : PublicKey
leader_key = record { key_bytes = 7 ∷ [] }

abbrev pub leader_address : Address
leader_address = record {
  ingress = record { ip = v4 2130706433; port = 3000 };
  egress = record { ip = v4 2130706433; port = 0 };
}

abbrev pub validators : ValidatorSet
validators = (leader_key, leader_address) ∷ []

abbrev pub genesis_hash : B256
genesis_hash = replicate 32 1

abbrev pub genesis : BlockInfo
genesis = genesis_info leader_key genesis_hash 0 0

abbrev pub fresh : Actor
fresh = record {
  validators = validators;
  proposal_count = 0;
  proposals = new_lock [];
  pending_blocks = new_lock [];
  received_blocks = new_lock [];
  block_info = new_lock ((empty_digest, genesis) ∷ []);
  metrics = some new_metrics;
}

abbrev pub tracker : Tracker
tracker = (genesis_hash, 0)

abbrev pub builder : PayloadBuilder (Tracker × ℕ)
builder = engine_builder eth engine

abbrev pub round : Round
round = record { epoch = 0; view = 1 }

abbrev pub proposing : Propose
proposing = record {
  parent_view = 0;
  parent_digest = empty_digest;
  round = round;
  leader = leader_key;
}

-- Five seconds after the epoch.
abbrev pub clock : Option ℕ
clock = some 5000

abbrev pub block_hash : B256
block_hash = 5 ∷ replicate 31 2

abbrev pub digest : Digest
digest = record { inner = block_hash }

abbrev pub block_bytes : Bytes
block_bytes = 5 ∷ 1 ∷ []

abbrev pub payload : BuiltPayload
payload = record {
  block_bytes = block_bytes;
  block_hash = block_hash;
  block_number = 1;
  timestamp_millis = 5000;
}

abbrev pub meta : BlockMeta
meta = record { hash = block_hash; number = 1; timestamp = 5; timestamp_millis = 5000 }

abbrev pub verifying : Verify
verifying = record {
  parent_view = 0;
  parent_digest = empty_digest;
  payload = digest;
  proposer = leader_key;
  round = round;
}

-- The leader after its proposal, with an engine that gives the payload id at the third update.
abbrev pub leader_after : Actor
leader_after = (handle_propose builder clock proposing fresh (tracker, 2)).1

-- A validator that has the block from its peer.
abbrev pub supplied : Actor
supplied = record fresh { received_blocks = new_lock ((digest, block_bytes) ∷ []) }

-- A proposal, its broadcast, a verification of the own block, and one of an unknown block.
abbrev pub messages : List (Option ℕ × Message)
messages =
    (clock, propose proposing)
    ∷ (none, broadcast (record { digest = digest; plan = Plan.propose }))
    ∷ (clock, verify verifying)
    ∷ (none, verify (record verifying { payload = record { inner = zero_hash } }))
    ∷ []

-- A key is its seed.
abbrev pub commonware : Commonware ℕ Bool
commonware = record {
  ordered = λ ks. ok ks;
  signer = λ namespace ks key. some true;
  verifier = λ namespace ks. false;
  from_seed = λ seed. seed;
  public_key = key_from_seed;
}

-- The engine of a validator.
abbrev pub config : EngineConfig ℕ (Queue Digest)
config = record {
  signing_key = 0;
  validators = validators;
  consensus_config = default_config;
  proposals = new_lock [];
  partition = "allegro_0";
  metrics = some new_metrics;
  genesis_hash = genesis_hash;
  genesis_timestamp = 0;
  finalized_tx = none;
  genesis_timestamp_millis = 0;
}
