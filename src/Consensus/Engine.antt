-- ===== src/Consensus/Engine.antt =====
-- crates/consensus/src/engine.rs: `start_simplex_engine`, which checks the configuration, makes the
-- stores and the actor, and hands the rest to commonware's simplex engine.
pub mod Starting
use allegro.Prelude.{
  ℕ, ◌||◌, Bool, true, false, List, [], ◌∷◌, Option, none, some, Result, ok, err, if◌then◌else◌,
  ltb, nat_eqb,
}
use allegro.Prelude.Lock.{Lock, new_lock}
use Prim.Native.String.{String}
use Prim.Native.String
use allegro.Primitives.Digest.{Bytes, B256, Digest, PublicKey, empty_digest}
use allegro.Consensus.Metrics.{Metrics}
use allegro.Consensus.Reporter.{MetricsReporter, new_reporter}
use allegro.Consensus.Validators.{ValidatorSet, set_keys, set_is_empty}
use allegro.Consensus.Error.{ConsensusError, invalid_validator_config}
use allegro.Consensus.Config.{ConsensusConfig, ForwardingPolicy, silent_voters, all, validate}
use allegro.Consensus.Application.{Actor, Blocks, BlockInfos, new_actor}

-- `RoundRobin`: a leader for each view, or for a term of views.
pub data Elector : Type 0 where
  every_view : Elector
  with_term : (length stall_timeout optimistic_views : ℕ) → Elector

-- The two forwarding policies are an enum of commonware too; the source uses one value.
pub data SimplexForwarding : Type 0 where
  to_silent_voters : SimplexForwarding

unfoldable pub forwarding_of : ForwardingPolicy → SimplexForwarding
forwarding_of silent_voters = to_silent_voters
forwarding_of all = to_silent_voters

unfoldable pub elector_of : ConsensusConfig → Elector
elector_of cc =
    if ltb 1 cc.term_length
    then with_term cc.term_length cc.stall_timeout cc.optimistic_views
    else every_view

-- `EngineConfig`, less the payload builder, which the model gives to each handler. `K` is a signing
-- key, `C` the channel to the finalizer.
pub record EngineConfig (K C : Type 0) : Type 0 where
  pub signing_key : K
  pub validators : ValidatorSet
  pub consensus_config : ConsensusConfig
  pub proposals : Lock (List Digest)
  pub partition : String
  pub metrics : Option Metrics
  pub genesis_hash : B256
  pub genesis_timestamp : ℕ
  pub finalized_tx : Option C
  pub genesis_timestamp_millis : ℕ

-- `commonware_consensus::simplex::Config`, the parts that are values; `S` is a signing scheme.
pub record SimplexConfig (S C : Type 0) : Type 0 where
  pub scheme : S
  pub elector : Elector
  pub reporter : MetricsReporter C
  pub track_historical_votes : Bool
  pub partition : String
  pub mailbox_size : ℕ
  pub epoch : ℕ
  pub floor : Digest
  pub leader_timeout : ℕ
  pub certification_timeout : ℕ
  pub timeout_retry : ℕ
  pub view_retention : ℕ
  pub skip_timeout : ℕ
  pub fetch_timeout : ℕ
  pub forwarding : SimplexForwarding
  pub replay_buffer : ℕ
  pub write_buffer : ℕ
  pub page_cache_pages : ℕ
  pub page_cache_capacity : ℕ

-- What is called of commonware: the ordered set, which refuses duplicates, the two schemes, and the
-- key of `PrivateKey::from_seed(0)`.
pub record Commonware (K S : Type 0) : Type 0 where
  pub ordered : List PublicKey → Result (List PublicKey) String
  pub signer : Bytes → List PublicKey → K → Option S
  pub verifier : Bytes → List PublicKey → S
  pub from_seed : ℕ → K
  pub public_key : K → PublicKey

-- How a start ends. The panics are those of `NZUsize!` and `NZU16!` on a zero.
pub data Started (S C : Type 0) : Type 0 where
  started : SimplexConfig S C → Actor → Started S C
  refused : ConsensusError → Started S C
  panicked : Started S C

abbrev pub namespace_allegro : Bytes
namespace_allegro = 97 ∷ 108 ∷ 108 ∷ 101 ∷ 103 ∷ 114 ∷ 111 ∷ []

-- `application::new_block_stores`: pending, received and known blocks.
abbrev pub new_block_stores : Lock Blocks × Lock Blocks × Lock BlockInfos
new_block_stores = (new_lock [], new_lock [], new_lock [])

unfoldable pub scheme_of : {K S : Type 0} → Commonware K S → List PublicKey → K → S
scheme_of cw participants key = elim (cw.signer namespace_allegro participants key) [
  | some scheme ↦ scheme
  | none ↦ cw.verifier namespace_allegro participants
]

-- A size that one of the `NZ…!` macros refuses.
unfoldable pub has_zero_size : ConsensusConfig → Bool
has_zero_size c =
    nat_eqb c.page_cache_pages 0
    || (nat_eqb c.page_cache_capacity 0
        || (nat_eqb c.mailbox_size 0
            || (nat_eqb c.replay_buffer_size 0 || nat_eqb c.write_buffer_size 0)))

module _ {K S C : Type 0} (cw : Commonware K S) where
  unfoldable pub start_actor : EngineConfig K C → Actor
  unfolding new_actor
  start_actor config =
      let (pending_blocks, received_blocks, block_info) = new_block_stores in
      new_actor config.validators config.proposals pending_blocks received_blocks block_info
        config.metrics (cw.public_key (cw.from_seed 0)) config.genesis_hash config.genesis_timestamp
        config.genesis_timestamp_millis

  unfoldable pub simplex_config : EngineConfig K C → List PublicKey → SimplexConfig S C
  unfolding scheme_of forwarding_of elector_of
  simplex_config config participants =
      let cc = config.consensus_config in
      record {
        scheme = scheme_of cw participants config.signing_key;
        elector = elector_of cc;
        reporter = new_reporter config.metrics config.finalized_tx;
        track_historical_votes = cc.track_historical_votes;
        partition = config.partition;
        mailbox_size = cc.mailbox_size;
        epoch = 0;
        floor = empty_digest;
        leader_timeout = cc.leader_timeout;
        certification_timeout = cc.certification_timeout;
        timeout_retry = cc.timeout_retry;
        view_retention = cc.view_retention;
        skip_timeout = cc.skip_timeout;
        fetch_timeout = cc.fetch_timeout;
        forwarding = forwarding_of cc.forwarding_policy;
        replay_buffer = cc.replay_buffer_size;
        write_buffer = cc.write_buffer_size;
        page_cache_pages = cc.page_cache_pages;
        page_cache_capacity = cc.page_cache_capacity;
      }

  -- The participants, in order, or the error of a duplicate.
  unfoldable pub start_with : EngineConfig K C → Result (List PublicKey) String → Started S C
  unfolding has_zero_size start_actor simplex_config
  start_with config (err e) =
      refused (invalid_validator_config (String.◌++◌ "duplicate validators: " e))
  start_with config (ok participants) =
      if has_zero_size config.consensus_config
      then panicked
      else started (simplex_config config participants) (start_actor config)

  unfoldable pub start_simplex_engine : EngineConfig K C → Started S C
  unfolding start_with
  start_simplex_engine config = elim (validate config.consensus_config) [
    | err e ↦ refused e
    | ok _ ↦
        if set_is_empty config.validators
        then refused (invalid_validator_config "validator set is empty")
        else start_with config (cw.ordered (set_keys config.validators))
  ]
