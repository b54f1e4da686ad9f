-- ===== src/Consensus/Loopback/SelfDelivery.antt =====
-- A node whose network is the loopback receives the blocks that it broadcasts.
use allegro.Prelude.{
  ◌<◌, ◌≡◌, ap, ◌∙◌, Bool, true, false, [], ◌∷◌, ◌++◌, Option, some, length, arith, if◌then◌else◌,
}
use allegro.Prelude.Dict.{get, insert}
use allegro.Prelude.Lock.{Lock}
use allegro.Primitives.Digest.{Bytes, Digest, PublicKey, IsB256, digest_eq}
use allegro.Consensus.Metrics.{Metrics, on_metrics, inc_blocks_broadcast, inc_errors}
use allegro.Consensus.Application.{Blocks}
use allegro.Consensus.Channel.{Channel}
use allegro.Consensus.Reporter
use allegro.Consensus.Plan.{Plan}
use allegro.Consensus.Relay.{wire, relay_broadcast, receive, message}
use allegro.Consensus.Relay.Wire.{receive-wire_contents}
use allegro.Consensus.Loopback.{Unreliable, new, submission, submit, check, loopback_sender, recv}

module _ {C : Type 0} (channel : Channel (PublicKey × Bytes) C) (self_key : PublicKey)
    (accepted : Unreliable → Bool) where
  -- On a single node whose loopback channel is open, empty and of some capacity, the broadcast of
  -- an own block with a 32-byte digest is taken by the channel, is what the receiver gets next,
  -- under the node's own key, and is stored among the received blocks with its bytes, if neither
  -- store is poisoned.
  pub loopback_delivers :
      (d : Digest) (plan : Plan) (pending received : Lock Blocks) (metrics : Option Metrics) (c : C)
      (block_bytes : Bytes)
      → IsB256 d.inner
      → pending.poisoned ≡ false
      → received.poisoned ≡ false
      → get pending.contents d ≡ some block_bytes
      → channel.is_open c ≡ true
      → channel.queued c ≡ []
      → 0 < channel.capacity c
      → (m : Option Metrics) × (c1 c2 : C) × (relay_broadcast
            (loopback_sender channel self_key accepted)
            d
            plan
            pending
            metrics
            c
          ≡ some (m, c1))
        × (recv channel self_key c1 ≡ (some (message self_key (wire d block_bytes)), c2))
        × ((receive (message self_key (wire d block_bytes)) received m).0.contents
            ≡ insert received.contents d block_bytes)
        × (channel.queued c2 ≡ [])
  unfolding relay_broadcast loopback_sender recv check submit submission
  loopback_delivers d plan pending received metrics c block_bytes size p q found live empty room =
      let msg : PublicKey × Bytes = (self_key, wire d block_bytes) in
      let c1 = (channel.try_send msg c).1 in
      let sent = channel.send-ok msg c live (omega (arith, ap length empty)) in
      let taken = channel.next-queued c1 msg [] (sent.1 ∙ ap (λ q. q ++ msg ∷ []) empty) in
      let ok_feedback = accepted (new Reporter.accepted) in
      (
        (if ok_feedback
            then on_metrics inc_blocks_broadcast metrics
            else on_metrics inc_errors metrics),
        c1,
        (channel.next c1).1,
        ground (arith, sent.0),
        ground (arith, taken.0),
        receive-wire_contents self_key d block_bytes received _ size q,
        taken.1,
      )
