-- ===== src/Node/Launch/Launching.antt =====
-- How the launch of a node ends, and what a launched node runs: its configuration, and rules that
-- differ from Ethereum's in the timestamps.
use allegro.Prelude.{
  ◌*◌, ◌≤◌, ◌≡◌, ◌↔◌, ◌⊎◌, refl, ℕ, true, Result, ok, err, and_then, map_err, u64_max, arith,
}
use Prim.Native.String.{String}
use allegro.Consensus.Executor.{PayloadAttributes}
use allegro.Node.BeaconConsensus.{
  EngineValidator, EthRules, engine_validator, validate_payload_attributes_against_header,
}
use allegro.Node.BeaconConsensus.Timestamps.{Follows}
use allegro.Node.BeaconConsensus.Relaxing.{IsEthereum, beacon_consensus_relaxes}
use allegro.Node.Launch.{
  RethNodeConfig, NodeConfig, node_config, LaunchedRethNode, RethLauncher, Components, LaunchError,
  allegro_components, failed_to_open_database, failed_to_launch, into_launched, launched_node,
  launch,
}

module _ {S H D K R Q P X E A L N : Type 0}
    (reth : RethLauncher S (Components S H D K R Q X E) A L N) (rules : EthRules S H D K R Q P E)
    (timestamp : H → ℕ) where
  -- Components that accept a header of the parent's timestamp besides what Ethereum's do, and
  -- attributes from the parent's timestamp on.
  pub record IsRelaxed (components : Components S H D K R Q X E) : Type 0 where
    pub headers :
        (spec : S) (header parent : H)
        → ((components.consensus spec).validate_header_against_parent header parent ≡ ok tt) ↔ (
            ((rules.eth_beacon_consensus spec).validate_header_against_parent header parent ≡ ok tt)
            ⊎ (Follows (rules.header_rules spec) header parent
                × ((rules.header_rules spec).timestamp header
                    ≡ (rules.header_rules spec).timestamp parent)))
    pub attributes :
        (spec : S) (attr : PayloadAttributes) (header : H)
        → ((components.validator spec).validate_payload_attributes_against_header attr header
            ≡ ok tt)
          ↔ (timestamp header ≤ attr.timestamp)

  -- The builder of a configuration: on the database under its datadir, with its chain and its three
  -- ports, HTTP, and neither IPC nor discovery.
  pub record Prepared (cfg : RethNodeConfig S) (builder : L) : Type 0 where
    pub db : A
    pub opened : reth.init_db (reth.join cfg.datadir "db") ≡ ok db
    pub config : NodeConfig S
    pub same_chain : config.chain ≡ cfg.chain
    pub same_datadir : config.datadir ≡ cfg.datadir
    pub ports :
        (config.http_port ≡ cfg.http_port)
        × (config.auth_port ≡ cfg.authrpc_port)
        × (config.port ≡ cfg.p2p_port)
    pub switches :
        (config.http ≡ true) × (config.ipcdisable ≡ true) × (config.disable_discovery ≡ true)
    pub prepared : builder ≡ reth.prepare config db

  -- What is taken of a node that runs.
  pub record Taken (datadir : String) (node : N) (n : LaunchedRethNode) : Type 0 where
    pub same_datadir : n.datadir ≡ datadir
    pub hash : n.genesis_hash ≡ reth.genesis_hash node
    pub seconds : n.genesis_timestamp ≡ reth.genesis_timestamp node
    pub millis :
        reth.genesis_timestamp node * 1000 ≤ u64_max
        → n.genesis_timestamp_millis ≡ reth.genesis_timestamp node * 1000

  -- How a launch ends.
  pub data Launching (cfg : RethNodeConfig S) : Result LaunchedRethNode LaunchError → Type 0 where
    no_database :
        (e : String)
        → reth.init_db (reth.join cfg.datadir "db") ≡ err e
        → Launching cfg (err (failed_to_open_database e))
    no_node :
        (builder : L) (components : Components S H D K R Q X E) (e : String)
        → Prepared cfg builder
        → IsRelaxed components
        → reth.launch_node components builder ≡ err e
        → Launching cfg (err (failed_to_launch e))
    launched :
        (builder : L) (components : Components S H D K R Q X E) (node : N) (n : LaunchedRethNode)
        → Prepared cfg builder
        → IsRelaxed components
        → reth.launch_node components builder ≡ ok node
        → Taken cfg.datadir node n
        → Launching cfg (ok n)

  node_config-Prepared :
      (cfg : RethNodeConfig S) (db : A)
      → reth.init_db (reth.join cfg.datadir "db") ≡ ok db
      → Prepared cfg (reth.prepare (node_config cfg) db)
  unfolding node_config
  node_config-Prepared cfg db opened = record {
    db = db;
    opened = opened;
    config = node_config cfg;
    same_chain = refl;
    same_datadir = refl;
    ports = (refl, refl, refl);
    switches = (refl, refl, refl);
    prepared = refl;
  }

  module _ (ethereum_engine_validator : S → EngineValidator X K H E) where
    allegro_components-IsRelaxed :
        IsEthereum rules → IsRelaxed (allegro_components rules timestamp ethereum_engine_validator)
    unfolding allegro_components engine_validator validate_payload_attributes_against_header
    allegro_components-IsRelaxed eth = record {
      headers = λ spec header parent. (beacon_consensus_relaxes rules eth spec).1 header parent;
      attributes = λ spec attr header. ground arith;
    }

    launched_node-Taken :
        (datadir : String) (node : N)
        → Taken datadir node
            (launched_node reth rules timestamp ethereum_engine_validator datadir node)
    unfolding launched_node into_launched
    launched_node-Taken datadir node = record {
      same_datadir = refl;
      hash = refl;
      seconds = refl;
      millis = λ fits. ground arith;
    }

    launch_node-Launching :
        IsEthereum rules
        → (cfg : RethNodeConfig S) (builder : L) (r : Result N String) → Prepared cfg builder
        → reth.launch_node (allegro_components rules timestamp ethereum_engine_validator) builder
          ≡ r
        → Launching cfg (
            and_then (map_err failed_to_launch r) λ node.
              ok (launched_node reth rules timestamp ethereum_engine_validator cfg.datadir node))
    launch_node-Launching eth cfg builder (err e) prepared ran =
        no_node builder _ e prepared (allegro_components-IsRelaxed eth) ran
    launch_node-Launching eth cfg builder (ok node) prepared ran =
        launched builder _ node _ prepared (allegro_components-IsRelaxed eth) ran
          (launched_node-Taken cfg.datadir node)

    init_db-Launching :
        IsEthereum rules
        → (cfg : RethNodeConfig S) (r : Result A String)
        → reth.init_db (reth.join cfg.datadir "db") ≡ r
        → Launching cfg (
            and_then (map_err failed_to_open_database r) λ db.
              and_then
                (map_err failed_to_launch (
                  reth.launch_node
                    (allegro_components rules timestamp ethereum_engine_validator)
                    (reth.prepare (node_config cfg) db)))
                λ node.
                  ok
                    (launched_node reth rules timestamp ethereum_engine_validator cfg.datadir node))
    init_db-Launching eth cfg (err e) failed = no_database e failed
    init_db-Launching eth cfg (ok db) opened =
        launch_node-Launching eth cfg (reth.prepare (node_config cfg) db) _
          (node_config-Prepared cfg db opened) refl

    -- A launch by a configuration ends in one of three ways. If the database under its data
    -- directory does not open, it is the database's error. Else a builder is prepared on that
    -- database with the configuration's chain, data directory and three ports, with HTTP and
    -- without IPC and discovery, and reth launches it with components that accept, besides the
    -- headers that Ethereum's accept, those of the parent's timestamp that pass all its other
    -- rules, and payload attributes exactly from the parent's timestamp on. If reth fails, it is
    -- reth's error; else the result has the data directory, the node's genesis hash and time, and
    -- this time in milliseconds if they fit in 64 bits. The rules for headers without Allegro are
    -- Ethereum's.
    pub launch-Launching :
        IsEthereum rules
        → (cfg : RethNodeConfig S)
        → Launching cfg (launch reth rules timestamp ethereum_engine_validator cfg)
    unfolding launch
    launch-Launching eth cfg =
        init_db-Launching eth cfg (reth.init_db (reth.join cfg.datadir "db")) refl
