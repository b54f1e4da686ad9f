-- ===== src/Consensus/Config/Valid.antt =====
-- What `validate` accepts, described without it.
use allegro.Prelude.{◌<◌, ◌≡◌, ◌↔◌, ok, arith}
use allegro.Consensus.Config.{ConsensusConfig, validate}

-- The invariants that the simplex engine relies on.
pub record IsSound (c : ConsensusConfig) : Type 0 where
  pub mailbox : 0 < c.mailbox_size
  pub leader : 0 < c.leader_timeout
  pub retry : 0 < c.timeout_retry
  pub fetch : 0 < c.fetch_timeout
  pub retention : 0 < c.view_retention
  pub term : 0 < c.term_length
  pub leader_first : c.leader_timeout < c.certification_timeout
  pub certification_first : c.certification_timeout < c.skip_timeout
  pub retry_first : c.timeout_retry < c.skip_timeout
  pub stall_last : 1 < c.term_length → c.certification_timeout < c.stall_timeout

-- The configuration check passes exactly the configurations in which no required size or time is
-- zero, the leader, certification and skip timeouts ascend, the skip timeout is after the retry
-- interval, and, with terms of more than one view, the stall timeout is after the certification
-- timeout.
pub validate_iff : (c : ConsensusConfig) → (validate c ≡ ok tt) ↔ IsSound c
unfolding validate
validate_iff c = ground arith
