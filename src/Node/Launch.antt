-- ===== src/Node/Launch.antt =====
-- crates/node/src/launch.rs: the configuration of a reth node, its launch with Allegro's rules, and
-- what is taken of the launched node. The database and the node are reth's, a parameter.
pub mod Launching
use allegro.Prelude.{
  Bool, true, Result, ok, and_then, map_err, ℕ, ◌/◌, ◌≤◌, ◌≡◌, arith, u64_max, saturating_mul,
}
use Prim.Native.String.{String}
use Prim.Native.String
use allegro.Primitives.Digest.{B256}
use allegro.Node.BeaconConsensus.{
  FullConsensus, EngineValidator, EthRules, beacon_consensus, engine_validator,
}

pub record RethNodeConfig (S : Type 0) : Type 0 where
  pub datadir : String
  pub http_port : ℕ
  pub authrpc_port : ℕ
  pub p2p_port : ℕ
  pub chain : S

-- Its default; `PathBuf::join`, the temporary directory and the dev chain are parameters.
abbrev pub default_node_config :
    {S : Type 0} → (String → String → String) → String → S → RethNodeConfig S
default_node_config join temp_dir dev_chainspec = record {
  datadir = join temp_dir "allegro-reth";
  http_port = 8545;
  authrpc_port = 8551;
  p2p_port = 30303;
  chain = dev_chainspec;
}

-- `LaunchedRethNode`, less the handles.
pub record LaunchedRethNode : Type 0 where
  pub datadir : String
  pub genesis_hash : B256
  pub genesis_timestamp : ℕ
  pub genesis_timestamp_millis : ℕ

-- `into_launched!`, of the chain's genesis.
unfoldable pub into_launched : String → B256 → ℕ → LaunchedRethNode
into_launched datadir genesis_hash genesis_timestamp = record {
  datadir = datadir;
  genesis_hash = genesis_hash;
  genesis_timestamp = genesis_timestamp;
  genesis_timestamp_millis = saturating_mul genesis_timestamp 1000;
}

-- The genesis block is known with its time, up to the year 584,556,019.
pub into_launched_timed :
    (datadir : String) (hash : B256) (timestamp : ℕ)
    → timestamp ≤ u64_max / 1000
    → let n = into_launched datadir hash timestamp in
      (n.genesis_timestamp_millis / 1000 ≡ n.genesis_timestamp)
      × (n.genesis_timestamp_millis ≤ u64_max)
unfolding into_launched
into_launched_timed datadir hash timestamp fits = ground arith

-- reth's `NodeConfig`, the fields that the source sets; the others have reth's defaults.
pub record NodeConfig (S : Type 0) : Type 0 where
  pub chain : S
  pub datadir : String
  pub http : Bool
  pub http_port : ℕ
  pub auth_port : ℕ
  pub ipcdisable : Bool
  pub port : ℕ
  pub disable_discovery : Bool

unfoldable pub node_config : {S : Type 0} → RethNodeConfig S → NodeConfig S
node_config cfg = record {
  chain = cfg.chain;
  datadir = cfg.datadir;
  http = true;
  http_port = cfg.http_port;
  auth_port = cfg.authrpc_port;
  ipcdisable = true;
  port = cfg.p2p_port;
  disable_discovery = true;
}

-- What a node is built with, of its chain spec: the consensus of its components, and the engine
-- validator of its add-ons. All else is Ethereum's.
pub record Components (S H D K R Q X E : Type 0) : Type 0 where
  pub consensus : S → FullConsensus H D K R Q E
  pub validator : S → EngineValidator X K H E

-- `EthereumNode::components().consensus(AllegroConsensusBuilder)` and `allegro_add_ons!`.
unfoldable pub allegro_components :
    {S H D K R Q P X E : Type 0}
    → EthRules S H D K R Q P E
    → (H → ℕ)
    → (S → EngineValidator X K H E)
    → Components S H D K R Q X E
unfolding beacon_consensus engine_validator
allegro_components rules timestamp ethereum_engine_validator = record {
  consensus = beacon_consensus rules;
  validator = engine_validator timestamp ethereum_engine_validator;
}

-- What is called of reth, on databases `A`, prepared builders `L` and running nodes `N`.
pub record RethLauncher (S G A L N : Type 0) : Type 0 where
  pub join : String → String → String
  pub init_db : String → Result A String
  pub prepare : NodeConfig S → A → L
  pub datadir_of : L → String
  pub launch_node : G → L → Result N String
  pub genesis_hash : N → B256
  pub genesis_timestamp : N → ℕ

pub data LaunchError : Type 0 where
  failed_to_open_database failed_to_launch : String → LaunchError

module _ {S H D K R Q P X E A L N : Type 0}
    (reth : RethLauncher S (Components S H D K R Q X E) A L N) (rules : EthRules S H D K R Q P E)
    (timestamp : H → ℕ) (ethereum_engine_validator : S → EngineValidator X K H E) where
  -- `into_launched!`, of a running node.
  unfoldable pub launched_node : String → N → LaunchedRethNode
  unfolding into_launched
  launched_node datadir node =
      into_launched datadir (reth.genesis_hash node) (reth.genesis_timestamp node)

  unfoldable pub launch_with_builder : L → Result LaunchedRethNode LaunchError
  unfolding launched_node allegro_components
  launch_with_builder builder =
      let datadir = reth.datadir_of builder in
      let components = allegro_components rules timestamp ethereum_engine_validator in
      and_then (map_err failed_to_launch (reth.launch_node components builder))
        λ node. ok (launched_node datadir node)

  unfoldable pub launch : RethNodeConfig S → Result LaunchedRethNode LaunchError
  unfolding launched_node node_config allegro_components
  launch cfg =
      and_then (map_err failed_to_open_database (reth.init_db (reth.join cfg.datadir "db"))) λ db.
        let components = allegro_components rules timestamp ethereum_engine_validator in
        and_then
          (map_err failed_to_launch
            (reth.launch_node components (reth.prepare (node_config cfg) db)))
          λ node. ok (launched_node cfg.datadir node)
