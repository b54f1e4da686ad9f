-- ===== src/Examples/MailboxTests.antt =====
-- The requests of the engine and the actor over the mailbox.
use allegro.Prelude.{arith, ◌≡◌, refl, true, [], some}
use allegro.Primitives.Digest.{empty_digest}
use allegro.Consensus.Application.{
  Message, propose, verify, Propose, Verify, handle_propose, handle_verify,
}
use allegro.Consensus.Application.Proposing.{Proposal}
use allegro.Consensus.Application.Recording.{Verification}
use allegro.Consensus.Mailbox.{Context, ask_propose, ask_verify}
use allegro.Consensus.Mailbox.Serving.{asks-handled}
use allegro.Examples.Scenario.{builder, fresh, round, tracker, leader_key, clock, digest}
use allegro.Examples.Fixtures.{Queue, queue_channel}

-- The engine asks for a proposal on the genesis block.
abbrev context : Context
context = record {
  round = round;
  leader = leader_key;
  parent_view = 0;
  parent_digest = empty_digest;
}

abbrev mailbox : Queue Message
mailbox = record { items = []; live = true; limit = 8 }

asks-handled_example :
    ((p : Propose) × (((queue_channel Message).next
          (ask_propose (queue_channel Message) context mailbox).1).0
        ≡ some (propose p))
      × Proposal builder
          (record {
            parent_view = 0;
            parent_digest = empty_digest;
            round = round;
            leader = leader_key;
          })
          fresh
          (tracker, 2)
          (handle_propose builder clock p fresh (tracker, 2)))
    × ((q : Verify) × (((queue_channel Message).next
            (ask_verify (queue_channel Message) context digest mailbox).1).0
          ≡ some (verify q))
        × Verification builder
            (record {
              parent_view = 0;
              parent_digest = empty_digest;
              payload = digest;
              proposer = leader_key;
              round = round;
            })
            fresh
            (tracker, 2)
            (handle_verify builder q fresh (tracker, 2)))
asks-handled_example =
    asks-handled builder (queue_channel Message) context digest mailbox clock fresh (tracker, 2)
      refl refl (omega arith)
