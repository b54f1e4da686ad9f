-- ===== src/Consensus/Config.antt =====
-- crates/consensus/src/config.rs: the tunable parameters, their defaults and their check.
-- A `Duration` is its number of nanoseconds.
pub mod Valid
use allegro.Prelude.{
  ℕ, ◌*◌, Bool, true, false, Result, ok, err, leb, ltb, nat_eqb, ◌&&◌, if◌then◌else◌,
}
use Prim.Native.String.{String}
use allegro.Consensus.Error.{
  ConsensusError, config, mailbox_size_zero, leader_timeout_zero, timeout_retry_zero,
  fetch_timeout_zero, view_retention_zero, term_length_zero, certification_not_above_leader,
  skip_not_above_certification, skip_not_above_retry, stall_not_above_certification,
}

abbrev pub from_millis : ℕ → ℕ
from_millis n = n * 1000000

abbrev pub from_secs : ℕ → ℕ
from_secs n = n * 1000000000

pub data ForwardingPolicy : Type 0 where
  silent_voters all : ForwardingPolicy

pub record ConsensusConfig : Type 0 where
  pub mailbox_size : ℕ
  pub leader_timeout : ℕ
  pub certification_timeout : ℕ
  pub timeout_retry : ℕ
  pub fetch_timeout : ℕ
  pub view_retention : ℕ
  pub skip_timeout : ℕ
  pub term_length : ℕ
  pub stall_timeout : ℕ
  pub optimistic_views : ℕ
  pub track_historical_votes : Bool
  pub forwarding_policy : ForwardingPolicy
  pub replay_buffer_size : ℕ
  pub write_buffer_size : ℕ
  pub page_cache_pages : ℕ
  pub page_cache_capacity : ℕ
  pub partition : String
  pub strict_startup : Bool

unfoldable pub validate : ConsensusConfig → Result (Unit {0}) ConsensusError
validate c =
    if nat_eqb c.mailbox_size 0
    then err (config mailbox_size_zero)
    else if nat_eqb c.leader_timeout 0
    then err (config leader_timeout_zero)
    else if nat_eqb c.timeout_retry 0
    then err (config timeout_retry_zero)
    else if nat_eqb c.fetch_timeout 0
    then err (config fetch_timeout_zero)
    else if nat_eqb c.view_retention 0
    then err (config view_retention_zero)
    else if nat_eqb c.term_length 0
    then err (config term_length_zero)
    else if leb c.certification_timeout c.leader_timeout
    then err (config (certification_not_above_leader c.certification_timeout c.leader_timeout))
    else if leb c.skip_timeout c.certification_timeout
    then err (config (skip_not_above_certification c.skip_timeout c.certification_timeout))
    else if leb c.skip_timeout c.timeout_retry
    then err (config (skip_not_above_retry c.skip_timeout c.timeout_retry))
    else if ltb 1 c.term_length && leb c.stall_timeout c.certification_timeout
    then err (config (stall_not_above_certification c.stall_timeout c.certification_timeout))
    else ok tt

abbrev pub default_config : ConsensusConfig
default_config = record {
  mailbox_size = 1024;
  leader_timeout = from_secs 2;
  certification_timeout = from_secs 4;
  timeout_retry = from_secs 1;
  fetch_timeout = from_secs 2;
  view_retention = 10;
  skip_timeout = from_secs 5;
  term_length = 1;
  stall_timeout = from_secs 8;
  optimistic_views = 0;
  track_historical_votes = false;
  forwarding_policy = silent_voters;
  replay_buffer_size = 8 * 1024 * 1024;
  write_buffer_size = 1024 * 1024;
  page_cache_pages = 4096;
  page_cache_capacity = 8192;
  partition = "allegro";
  strict_startup = false;
}

record NetworkConfig : Type 0 where
  max_message_size : ℕ
  mailbox_size : ℕ
  tracked_peer_sets : ℕ
  synchrony_bound : ℕ
  dial_frequency : ℕ
  max_handshake_age : ℕ
  handshake_timeout : ℕ
  max_concurrent_handshakes : ℕ
  block_duration : ℕ
  ping_frequency : ℕ
  peer_connection_cooldown : ℕ
  handshake_rate_per_ip : ℕ
  handshake_rate_per_subnet : ℕ
  bypass_ip_check : Bool
  allow_private_ips : Bool
  allow_dns : Bool
  send_batch_size : ℕ

abbrev default_network_config : NetworkConfig
default_network_config = record {
  max_message_size = 1024 * 1024;
  mailbox_size = 1024;
  tracked_peer_sets = 3;
  synchrony_bound = from_secs 2;
  dial_frequency = from_millis 200;
  max_handshake_age = from_secs 300;
  handshake_timeout = from_secs 5;
  max_concurrent_handshakes = 128;
  block_duration = from_secs 60;
  ping_frequency = from_secs 10;
  peer_connection_cooldown = from_secs 5;
  handshake_rate_per_ip = 10;
  handshake_rate_per_subnet = 10;
  bypass_ip_check = false;
  allow_private_ips = true;
  allow_dns = false;
  send_batch_size = 8;
}
