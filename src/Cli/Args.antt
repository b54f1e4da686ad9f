-- ===== src/Cli/Args.antt =====
-- bin/allegro/src/main.rs: `ConsensusArgs` and the configurations that are made of it.
use allegro.Prelude.{ℕ, ◌*◌, Bool, true, false, List, Option, none, some, nat_eqb, if◌then◌else◌}
use Prim.Native.String.{String}
use Prim.Native.String
use allegro.Consensus.Validators.{SocketAddr, v4, ValidatorSet, set_keys}
use allegro.Consensus.Config.{ConsensusConfig, silent_voters, from_millis, from_secs}
use allegro.Primitives.Digest.{Bytes, PublicKey}

pub record ConsensusArgs : Type 0 where
  pub node : ℕ
  pub listen : Option SocketAddr
  pub peers : List SocketAddr
  pub storage_dir : Option String
  pub leader_timeout_ms : ℕ
  pub cert_timeout_ms : ℕ
  pub timeout_retry_ms : ℕ
  pub fetch_timeout_ms : ℕ
  pub max_msg_size : ℕ
  pub mailbox_size : ℕ
  pub view_retention : ℕ
  pub skip_timeout_ms : ℕ
  pub term_length : ℕ
  pub stall_timeout_ms : ℕ
  pub optimistic_views : ℕ
  pub synchrony_ms : ℕ
  pub metrics : Bool

-- 127.0.0.1:0 and 0.0.0.0:3000.
abbrev pub default_listen : Bool → SocketAddr
default_listen dev =
    if dev then record { ip = v4 2130706433; port = 0 } else record { ip = v4 0; port = 3000 }

unfoldable pub resolve_listen : Bool → ConsensusArgs → ConsensusArgs
resolve_listen dev args = elim args.listen [
  | none ↦ record args { listen = some (default_listen dev) }
  | some addr ↦ args
]

-- `show_u8` is the `Display` of the node's index.
unfoldable pub build_consensus_config : (ℕ → String) → ConsensusArgs → ConsensusConfig
build_consensus_config show_u8 args = record {
  mailbox_size = args.mailbox_size;
  leader_timeout = from_millis args.leader_timeout_ms;
  certification_timeout = from_millis args.cert_timeout_ms;
  timeout_retry = from_millis args.timeout_retry_ms;
  fetch_timeout = from_millis args.fetch_timeout_ms;
  view_retention = args.view_retention;
  skip_timeout = from_millis args.skip_timeout_ms;
  term_length = args.term_length;
  stall_timeout = from_millis args.stall_timeout_ms;
  optimistic_views = args.optimistic_views;
  track_historical_votes = false;
  forwarding_policy = silent_voters;
  replay_buffer_size = 8 * 1024 * 1024;
  write_buffer_size = 1024 * 1024;
  page_cache_pages = 4096;
  page_cache_capacity = 8192;
  partition = String.◌++◌ "allegro_" (show_u8 args.node);
  strict_startup = false;
}

-- `lookup::Config`, the fields that the source sets; `K` is a signing key. The namespace and the
-- limit of a peer set are computed by commonware.
pub record LookupConfig (K : Type 0) : Type 0 where
  pub namespace : Bytes
  pub crypto : K
  pub listen : SocketAddr
  pub max_message_size : ℕ
  pub max_peers_per_set : ℕ
  pub mailbox_size : ℕ
  pub send_batch_size : ℕ
  pub bypass_ip_check : Bool
  pub allow_private_ips : Bool
  pub allow_dns : Bool
  pub tracked_peer_sets : ℕ
  pub synchrony_bound : ℕ
  pub dial_frequency : ℕ
  pub dial_timeout : ℕ
  pub max_handshake_age : ℕ
  pub handshake_timeout : ℕ
  pub max_concurrent_handshakes : ℕ
  pub block_duration : ℕ
  pub ping_frequency : ℕ
  pub peer_connection_cooldown : ℕ
  pub allowed_handshake_rate_per_ip : ℕ
  pub allowed_handshake_rate_per_subnet : ℕ

-- `none` is the panic of `expect` on a listen address that was not resolved, or of `NZUsize!` on a
-- mailbox of no size.
unfoldable pub dev_lookup_config :
    {K : Type 0}
    → Bytes
    → (List PublicKey → PublicKey → ℕ)
    → (K → PublicKey)
    → ConsensusArgs
    → K
    → ValidatorSet
    → Option (LookupConfig K)
dev_lookup_config namespace peer_set_limit public_key args crypto validators = elim args.listen [
  | none ↦ none
  | some listen ↦
      if nat_eqb args.mailbox_size 0
      then none
      else some (record {
        namespace = namespace;
        crypto = crypto;
        listen = listen;
        max_message_size = args.max_msg_size;
        max_peers_per_set = peer_set_limit (set_keys validators) (public_key crypto);
        mailbox_size = args.mailbox_size;
        send_batch_size = 8;
        bypass_ip_check = false;
        allow_private_ips = true;
        allow_dns = false;
        tracked_peer_sets = 3;
        synchrony_bound = from_millis args.synchrony_ms;
        dial_frequency = from_millis 200;
        dial_timeout = from_secs 10;
        max_handshake_age = from_secs 300;
        handshake_timeout = from_secs 5;
        max_concurrent_handshakes = 128;
        block_duration = from_secs 60;
        ping_frequency = from_secs 10;
        peer_connection_cooldown = from_secs 5;
        allowed_handshake_rate_per_ip = 10;
        allowed_handshake_rate_per_subnet = 10;
      })
]
