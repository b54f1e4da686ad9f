-- ===== src/Consensus/Error.antt =====
-- crates/consensus/src/error.rs, and the messages of the configuration check.
use allegro.Prelude.{ℕ}
use Prim.Native.String.{String}

-- The texts that `ConsensusConfig::validate` formats, with the durations that they show.
pub data ConfigProblem : Type 0 where
  mailbox_size_zero leader_timeout_zero timeout_retry_zero : ConfigProblem
  fetch_timeout_zero view_retention_zero term_length_zero : ConfigProblem
  certification_not_above_leader : ℕ → ℕ → ConfigProblem
  skip_not_above_certification : ℕ → ℕ → ConfigProblem
  skip_not_above_retry : ℕ → ℕ → ConfigProblem
  stall_not_above_certification : ℕ → ℕ → ConfigProblem

pub data ConsensusError : Type 0 where
  invalid_validator_config payload_builder block_not_found : String → ConsensusError
  unknown_proposer network storage timestamp internal : String → ConsensusError
  block_validation : String → ConsensusError
  config : ConfigProblem → ConsensusError
