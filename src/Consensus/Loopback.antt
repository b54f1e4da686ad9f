-- ===== src/Consensus/Loopback.antt =====
-- crates/consensus/src/loopback.rs: an in-process channel pair that stands for the network of a
-- single node.
pub mod SelfDelivery
use allegro.Prelude.{ℕ, Bool, List, [], ◌∷◌, Option, none, some, Result, ok, err}
use allegro.Primitives.Digest.{Bytes, PublicKey}
use allegro.Consensus.Channel.{Channel, SendError, full, closed}
use allegro.Consensus.Reporter.{Feedback}
use allegro.Consensus.Reporter
use allegro.Consensus.Plan.{Recipients}
use allegro.Consensus.Relay.{Sender, Received, message}

-- `commonware_actor::Unreliable<Feedback>`.
pub data Unreliable : Type 0 where
  new : Feedback → Unreliable
  rejected : Unreliable

-- The state of the channel, of pairs of a sender's key and a message.
module _ {C : Type 0} (channel : Channel (PublicKey × Bytes) C) (self_key : PublicKey) where
  -- `LoopbackSender::check` takes any recipients.
  unfoldable pub check : Recipients → C → Result (List PublicKey) ℕ × C
  check recipients tx = (ok (self_key ∷ []), tx)

  -- What `LoopbackCheckedSender::send` makes of the answer of the channel.
  unfoldable pub submission : Result (Unit {0}) SendError → Unreliable
  submission (ok _) = new Reporter.accepted
  submission (err full) = rejected
  submission (err closed) = new Reporter.closed

  -- `LoopbackCheckedSender::send`; the recipients were fixed by `check`.
  unfoldable pub submit : Bytes → C → Unreliable × C
  unfolding submission
  submit msg tx =
      let (answer, tx') = channel.try_send (self_key, msg) tx in (submission answer, tx')

  -- The transport that the relay sees; `accepted` is commonware's reading of a submission.
  unfoldable pub loopback_sender : (Unreliable → Bool) → Sender C
  unfolding check submit
  loopback_sender accepted = record {
    check = check;
    send = λ recipients msg priority tx. let (u, tx') = submit msg tx in (accepted u, tx');
  }

  -- `LoopbackReceiver::recv`; `none` is the panic of `expect` on a closed channel.
  unfoldable pub recv : C → Option Received × C
  recv rx =
      let (next, rx') = channel.next rx in
      (elim next [ none ↦ none | some (sender, msg) ↦ some (message sender msg) ], rx')
