-- ===== src/Consensus/Mailbox.antt =====
-- crates/consensus/src/application.rs: the mailbox, through which the simplex engine asks the actor.
-- The receiver of the answer, which each request returns, is what a handler of the actor answers.
pub mod Serving
use allegro.Prelude.{ℕ, Bool}
use allegro.Primitives.Digest.{Digest, PublicKey}
use allegro.Consensus.Channel.{Channel}
use allegro.Consensus.Application.{Round, Propose, Verify, Message, propose, verify}

-- `commonware_consensus::simplex::types::Context`.
pub record Context : Type 0 where
  pub round : Round
  pub leader : PublicKey
  pub parent_view : ℕ
  pub parent_digest : Digest

abbrev pub propose_message : Context → Propose
propose_message context = record {
  parent_view = context.parent_view;
  parent_digest = context.parent_digest;
  round = context.round;
  leader = context.leader;
}

abbrev pub verify_message : Context → Digest → Verify
verify_message context payload = record {
  parent_view = context.parent_view;
  parent_digest = context.parent_digest;
  payload = payload;
  proposer = context.leader;
  round = context.round;
}

module _ {C : Type 0} (channel : Channel Message C) where
  -- `Mailbox::propose`: whether the actor is there to answer, which the source logs.
  unfoldable pub ask_propose : Context → C → Bool × C
  ask_propose context sender = channel.send (propose (propose_message context)) sender

  -- `Mailbox::verify`.
  unfoldable pub ask_verify : Context → Digest → C → Bool × C
  ask_verify context payload sender = channel.send (verify (verify_message context payload)) sender
