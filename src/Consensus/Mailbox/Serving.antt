-- ===== src/Consensus/Mailbox/Serving.antt =====
-- The mailbox and the actor together: what a request of the simplex engine comes to.
use allegro.Prelude.{ℕ, ◌<◌, ◌≡◌, ap, ◌∙◌, true, [], ◌∷◌, ◌++◌, Option, some, length}
use allegro.Primitives.Digest.{Digest}
use allegro.Consensus.Channel.{Channel}
use allegro.Consensus.Executor.{PayloadBuilder}
use allegro.Consensus.Application.{
  Actor, Message, propose, verify, Propose, Verify, handle_propose, handle_verify,
}
use allegro.Consensus.Application.Proposing.{Proposal, handle_propose-Proposal}
use allegro.Consensus.Application.Recording.{Verification, handle_verify-Verification}
use allegro.Consensus.Mailbox.{Context, propose_message, verify_message, ask_propose, ask_verify}

module _ {W C : Type 0} (builder : PayloadBuilder W) (channel : Channel Message C) where
  -- What the actor receives first of an empty channel with room, after this was sent.
  sent_first :
      (msg : Message) (c : C)
      → channel.is_open c ≡ true
      → channel.queued c ≡ []
      → length (channel.queued c) < channel.capacity c
      → (channel.next (channel.send msg c).1).0 ≡ some msg
  sent_first msg c live quiet room =
      (channel.next-queued (channel.send msg c).1 msg []
        ((channel.send-room msg c live room).1 ∙ ap (λ q. q ++ msg ∷ []) quiet)).0

  -- On an open, empty mailbox with room, what the actor receives next after the engine asked for a
  -- proposal is a request to propose, and after it asked for the verification of a payload a
  -- request to verify. Handled at any clock reading, in any stores, the first ends as a proposal of
  -- the context's parent view, parent digest, round and leader does: on poisoned known blocks or an
  -- error of the builder without an answer and with the stores as they were, or else with the
  -- digest of the built payload, recorded; and the second as a verification of the context's parent
  -- view and digest, round and leader and of that payload does: accepted and recorded if all that
  -- acceptance needs is there, and else refused with the stores as they were.
  pub asks-handled :
      (context : Context) (payload : Digest) (c : C) (clock : Option ℕ) (s : Actor) (w : W)
      → channel.is_open c ≡ true
      → channel.queued c ≡ []
      → length (channel.queued c) < channel.capacity c
      → ((p : Propose) × ((channel.next (ask_propose channel context c).1).0 ≡ some (propose p))
          × Proposal builder
              (record {
                parent_view = context.parent_view;
                parent_digest = context.parent_digest;
                round = context.round;
                leader = context.leader;
              })
              s
              w
              (handle_propose builder clock p s w))
        × ((q : Verify) × ((channel.next (ask_verify channel context payload c).1).0
              ≡ some (verify q))
            × Verification builder
                (record {
                  parent_view = context.parent_view;
                  parent_digest = context.parent_digest;
                  payload = payload;
                  proposer = context.leader;
                  round = context.round;
                })
                s
                w
                (handle_verify builder q s w))
  unfolding ask_propose ask_verify
  asks-handled context payload c clock s w live quiet room = (
    (
      propose_message context,
      sent_first (propose (propose_message context)) c live quiet room,
      handle_propose-Proposal builder clock (propose_message context) s w,
    ),
    (
      verify_message context payload,
      sent_first (verify (verify_message context payload)) c live quiet room,
      handle_verify-Verification builder (verify_message context payload) s w,
    ),
  )
