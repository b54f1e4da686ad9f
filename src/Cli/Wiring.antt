-- ===== src/Cli/Wiring.antt =====
-- bin/allegro/src/main.rs: `spawn_consensus_thread` and `run_consensus`, which wire the engine, the
-- builder's tracker and the channel to the finalizer.
pub mod Startup
pub mod Fleet
use allegro.Prelude.{
  ℕ, Bool, true, List, [], Option, none, some, Result, ok, err, and_then, map_err, if◌then◌else◌,
}
use allegro.Prelude.Lock.{new_lock}
use Prim.Native.String.{String}
use Prim.Native.String
use allegro.Primitives.Digest.{Bytes, B256, PublicKey}
use allegro.Consensus.Metrics.{Metrics, new_metrics}
use allegro.Consensus.Validators.{ValidatorSet}
use allegro.Consensus.Error.{ConsensusError}
use allegro.Consensus.Config.{ConsensusConfig, validate}
use allegro.Consensus.Engine.{Commonware, EngineConfig, Started, start_simplex_engine}
use allegro.Node.Builder.{Tracker, new_tracker}
use allegro.Node.Launch.{LaunchedRethNode}
use allegro.Cli.Args.{ConsensusArgs, LookupConfig, build_consensus_config, dev_lookup_config}
use allegro.Cli.Peers.{Oracle, track_peers}

-- The capacity that is asked of the channel to the finalizer.
abbrev pub finalized_capacity : ℕ
finalized_capacity = 32

-- What the thread is given: commonware, the network's oracle, the channel's constructor, the namespace
-- of the network, the limit of a peer set, the `Display` of a `u8`, and `PathBuf::join`.
pub record Runtime (K S C O M : Type 0) : Type 0 where
  pub commonware : Commonware K S
  pub oracle : Oracle O M
  pub new_channel : ℕ → C
  pub network_namespace : Bytes
  pub peer_set_limit : List PublicKey → PublicKey → ℕ
  pub show_u8 : ℕ → String
  pub join : String → String → String
  pub new_oracle : LookupConfig K → O

-- `RethWiring`, less the handles.
pub record RethWiring : Type 0 where
  pub datadir : String
  pub genesis_hash : B256
  pub genesis_timestamp : ℕ
  pub genesis_timestamp_millis : ℕ

-- What `main` makes of the launched node.
abbrev pub wiring_of : LaunchedRethNode → RethWiring
wiring_of launched = record {
  datadir = launched.datadir;
  genesis_hash = launched.genesis_hash;
  genesis_timestamp = launched.genesis_timestamp;
  genesis_timestamp_millis = launched.genesis_timestamp_millis;
}

-- What the source sets of `commonware_runtime::tokio::Config`.
pub record RunnerConfig : Type 0 where
  pub tcp_nodelay : Option Bool
  pub worker_threads : ℕ
  pub storage_directory : String
  pub catch_panics : Bool

-- The channels of the network, each with its number and its messages per second.
pub record Channels : Type 0 where
  pub votes : ℕ × ℕ
  pub certs : ℕ × ℕ
  pub resolver : ℕ × ℕ
  pub blocks : ℕ × ℕ

abbrev pub channels : Channels
channels = record { votes = (0, 128); certs = (1, 128); resolver = (2, 128); blocks = (3, 128) }

-- A consensus thread: its runtime, its network and channels, its tracker, and how the engine started. The
-- finalizer runs only beside an engine that started.
pub record Consensus (K S C O : Type 0) : Type 0 where
  pub runtime : RunnerConfig
  pub network : LookupConfig K
  pub channels : Channels
  pub peers : O
  pub tracker : Tracker
  pub outcome : Started S C

pub data SpawnError : Type 0 where
  by_config : ConsensusError → SpawnError
  by_os : String → SpawnError

abbrev pub storage_of : (String → String → String) → ConsensusArgs → RethWiring → String
storage_of join args reth = elim args.storage_dir [
  | some dir ↦ dir
  | none ↦ join reth.datadir "consensus"
]

abbrev pub runner_config : (String → String → String) → ConsensusArgs → RethWiring → RunnerConfig
runner_config join args reth = record {
  tcp_nodelay = some true;
  worker_threads = 2;
  storage_directory = storage_of join args reth;
  catch_panics = true;
}

module _ {K S C O M : Type 0} (rt : Runtime K S C O M) where
  unfoldable pub engine_config :
      ConsensusArgs → ValidatorSet → RethWiring → ConsensusConfig → EngineConfig K C
  engine_config args validators reth consensus_config = record {
    signing_key = rt.commonware.from_seed args.node;
    validators = validators;
    consensus_config = consensus_config;
    proposals = new_lock [];
    partition = String.◌++◌ "allegro_" (rt.show_u8 args.node);
    metrics = if args.metrics then some new_metrics else none;
    genesis_hash = reth.genesis_hash;
    genesis_timestamp = reth.genesis_timestamp;
    finalized_tx = some (rt.new_channel finalized_capacity);
    genesis_timestamp_millis = reth.genesis_timestamp_millis;
  }

  -- `run_consensus`, once the network's configuration is made; `none` is a panic.
  unfoldable pub run_network :
      ConsensusArgs
      → ValidatorSet
      → RethWiring
      → ConsensusConfig
      → Option (LookupConfig K)
      → Option (Consensus K S C O)
  unfolding engine_config
  run_network args validators reth consensus_config none = none
  run_network args validators reth consensus_config (some network) =
      let pk = rt.commonware.public_key (rt.commonware.from_seed args.node) in
      some (record {
        runtime = runner_config rt.join args reth;
        network = network;
        channels = channels;
        peers = track_peers rt.oracle pk validators (rt.new_oracle network);
        tracker = new_tracker reth.genesis_hash;
        outcome =
            start_simplex_engine rt.commonware
              (engine_config args validators reth consensus_config);
      })

  unfoldable pub run_consensus :
      ConsensusArgs → ValidatorSet → RethWiring → ConsensusConfig → Option (Consensus K S C O)
  unfolding run_network
  run_consensus args validators reth consensus_config =
      run_network args validators reth consensus_config (
        dev_lookup_config rt.network_namespace rt.peer_set_limit rt.commonware.public_key args
          (rt.commonware.from_seed args.node) validators)

  -- `spawn_consensus_thread`; the operating system's answer is an argument. The configuration is
  -- checked first.
  unfoldable pub spawn_consensus_thread :
      Result (Unit {0}) String
      → ConsensusArgs
      → ValidatorSet
      → RethWiring
      → Result (Option (Consensus K S C O)) SpawnError
  unfolding run_consensus
  spawn_consensus_thread spawned args validators reth =
      let consensus_config = build_consensus_config rt.show_u8 args in
      and_then (map_err by_config (validate consensus_config)) λ _.
        and_then (map_err by_os spawned)
          λ _. ok (run_consensus args validators reth consensus_config)
