-- ===== src/Examples/NodeScenario.antt =====
-- The arguments of a node, and the consensus thread that it runs.
use Prim.Native.String.{String}
use Prim.Native.String
use allegro.Prelude.{ℕ, Bool, true, false, List, [], ◌∷◌, none, some, ok, length}
use allegro.Prelude.Dict.{Dict}
use allegro.Primitives.Digest.{Digest, PublicKey, digest_eq, public_key_eq}
use allegro.Consensus.Validators.{SocketAddr, Address, ValidatorEntry}
use allegro.Consensus.Validators.Entries.{indexed_entries}
use allegro.Consensus.Config.{default_config}
use allegro.Consensus.Application.{Actor}
use allegro.Consensus.Engine.{
  EngineConfig, start_simplex_engine, start_actor, simplex_config, SimplexConfig,
}
use allegro.Node.Launch.{LaunchedRethNode, into_launched}
use allegro.Cli.Args.{ConsensusArgs, LookupConfig}
use allegro.Cli.Peers.{Oracle, track_peers}
use allegro.Cli.Wiring.{Runtime, Consensus, RethWiring, wiring_of, channels, engine_config}
use allegro.Xtask.RoundTrip.{localhost}
use allegro.Examples.Fixtures.{Queue}
use allegro.Examples.Texts.{key_from_seed}
use allegro.Examples.Scenario.{commonware, genesis_hash, leader_key, validators, tracker}

-- Two validators at two addresses.
abbrev pub table : List SocketAddr
table = record { ip = localhost; port = 3000 } ∷ record { ip = localhost; port = 3001 } ∷ []

abbrev pub entries : List ValidatorEntry
entries = indexed_entries key_from_seed 0 table

abbrev pub args : ConsensusArgs
args = record {
  node = 1;
  listen = some (record { ip = localhost; port = 3001 });
  peers = record { ip = localhost; port = 3000 } ∷ [];
  storage_dir = none;
  leader_timeout_ms = 2000;
  cert_timeout_ms = 4000;
  timeout_retry_ms = 1000;
  fetch_timeout_ms = 2000;
  max_msg_size = 1048576;
  mailbox_size = 1024;
  view_retention = 10;
  skip_timeout_ms = 5000;
  term_length = 1;
  stall_timeout_ms = 8000;
  optimistic_views = 0;
  synchrony_ms = 2000;
  metrics = true;
}

abbrev pub oracle : Oracle (List (Dict PublicKey Address)) (Dict PublicKey Address)
oracle = record { ordered_map = λ pairs. ok pairs; track = λ id m o. m ∷ o }

abbrev pub runtime :
    Runtime ℕ Bool (Queue Digest) (List (Dict PublicKey Address)) (Dict PublicKey Address)
runtime = record {
  commonware = commonware;
  oracle = oracle;
  new_channel = λ n. record { items = []; live = true; limit = n };
  network_namespace = 1 ∷ [];
  peer_set_limit = λ ks me. length ks;
  show_u8 = λ n. "1";
  join = λ dir name. String.◌++◌ dir (String.◌++◌ "/" name);
  new_oracle = λ network. [];
}

abbrev pub launched : LaunchedRethNode
launched = record {
  datadir = "/data";
  genesis_hash = genesis_hash;
  genesis_timestamp = 3;
  genesis_timestamp_millis = 3000;
}

abbrev pub network : LookupConfig ℕ
network = record {
  namespace = 1 ∷ [];
  crypto = 1;
  listen = record { ip = localhost; port = 3001 };
  max_message_size = 1048576;
  max_peers_per_set = 1;
  mailbox_size = 1024;
  send_batch_size = 8;
  bypass_ip_check = false;
  allow_private_ips = true;
  allow_dns = false;
  tracked_peer_sets = 3;
  synchrony_bound = 2000000000;
  dial_frequency = 200000000;
  dial_timeout = 10000000000;
  max_handshake_age = 300000000000;
  handshake_timeout = 5000000000;
  max_concurrent_handshakes = 128;
  block_duration = 60000000000;
  ping_frequency = 10000000000;
  peer_connection_cooldown = 5000000000;
  allowed_handshake_rate_per_ip = 10;
  allowed_handshake_rate_per_subnet = 10;
}

abbrev pub wiring : RethWiring
wiring = wiring_of (into_launched "/data" genesis_hash 3)

abbrev pub running_config : EngineConfig ℕ (Queue Digest)
running_config = engine_config runtime args validators wiring default_config

abbrev pub running_simplex : SimplexConfig Bool (Queue Digest)
running_simplex = simplex_config commonware running_config (leader_key ∷ [])

abbrev pub thread : Consensus ℕ Bool (Queue Digest) (List (Dict PublicKey Address))
thread = record {
  runtime = record {
    tcp_nodelay = some true;
    worker_threads = 2;
    storage_directory = "/data/consensus";
    catch_panics = true;
  };
  network = network;
  channels = channels;
  peers = track_peers oracle (key_from_seed 1) validators [];
  tracker = tracker;
  outcome = start_simplex_engine commonware running_config;
}

-- The actor that the thread starts.
abbrev pub running : Actor
running = start_actor commonware running_config
