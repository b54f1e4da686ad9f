-- ===== src/Network/Settlement.antt =====
-- A block on its whole way: proposed, broadcast, verified, and final on both nodes.
use allegro.Prelude.{ℕ, ◌≡◌, ap, ◌∙◌, true, false, Option, none, some, ok, arith}
use allegro.Prelude.Dict.{get}
use allegro.Primitives.Digest.{IsB256, Digest, digest_eq}
use allegro.Consensus.Executor.{PayloadBuilder}
use allegro.Consensus.Application.{
  Actor, Propose, Verify, verify, step, handle_propose, handle_verify,
}
use allegro.Consensus.Application.Changes.{Change-info_lock, step-Change}
use allegro.Node.Reth.{Engine, EthFormat, Decodes, Honours, ForkchoiceUpdated, valid}
use allegro.Node.Builder.{Tracker}
use allegro.Node.Finalizer.{final_state, finalize}
use allegro.Node.Finalizer.Tracking.{finalize_moves}
use allegro.Network.{engine_builder, deliver}
use allegro.Network.Agreement.{deliver_agrees, deliver_keeps_infos}
use allegro.Network.Finality.{handle_propose_known}

handle_verify_keeps_lock :
    {W : Type 0} (builder : PayloadBuilder W) (q : Verify) (s : Actor) (w : W)
    → (handle_verify builder q s w).1.block_info.poisoned ≡ s.block_info.poisoned
unfolding step
handle_verify_keeps_lock builder q s w =
    Change-info_lock builder s (handle_verify builder q s w).1
      (step-Change builder none (verify q) s w)

module _ {V W B X : Type 0} (eth : EthFormat B X) (engine : Engine W B X)
    (peer : Engine V B X) where
  -- A leader whose stores are not poisoned answers a proposal with a digest of 32 bytes, its
  -- broadcast reaches a validator that has no block of its own under that digest and whose received
  -- and known blocks are not poisoned, and the validator accepts the proposal of the same leader
  -- and round. If then both finalize that digest, at any time and from any trackers, and the engine
  -- of each answers the forkchoice update to the hash that the digest names with a valid status,
  -- both trackers are at that hash and at one number. The engines keep the timestamp they are asked
  -- for, and encoded blocks decode.
  pub settles_alike :
      Decodes eth
      → Honours eth engine
      → (clock : Option ℕ) (p : Propose) (a : Actor) (t : Tracker) (w : W) (d : Digest)
      → a.block_info.poisoned ≡ false
      → a.pending_blocks.poisoned ≡ false
      → (handle_propose (engine_builder eth engine) clock p a (t, w)).0 ≡ some d
      → IsB256 d.inner
      → (b : Actor) (u : Tracker) (v : V) (q : Verify) → b.block_info.poisoned ≡ false
      → b.received_blocks.poisoned ≡ false
      → get b.pending_blocks.contents d ≡ none
      → q.payload ≡ d
      → q.proposer ≡ p.leader
      → q.round ≡ p.round
      → (handle_verify
          (engine_builder eth peer)
          q
          (deliver p.leader d (handle_propose (engine_builder eth engine) clock p a (t, w)).1 b)
          (u, v)).0
        ≡ true
      → (t' : Tracker) (w' : W) (f : ForkchoiceUpdated)
      → (engine.fork_choice_updated (final_state d.inner) none w').0 ≡ ok f
      → f.payload_status ≡ valid
      → (u' : Tracker) (v' : V) (g : ForkchoiceUpdated)
      → (peer.fork_choice_updated (final_state d.inner) none v').0 ≡ ok g
      → g.payload_status ≡ valid
      → let a' = (handle_propose (engine_builder eth engine) clock p a (t, w)).1 in
        let b' = (handle_verify (engine_builder eth peer) q (deliver p.leader d a' b) (u, v)).1 in
        (number : ℕ) × ((finalize engine d a'.block_info t' w').0 ≡ (d.inner, number))
        × ((finalize peer d b'.block_info u' v').0 ≡ (d.inner, number))
  settles_alike decodes honours clock p a t w d infos pending answered size b u v q b_infos
        b_received unknown same_payload same_proposer same_round accepted t' w' f final f_valid u'
        v' g final' g_valid =
      let builder = engine_builder eth engine in
      let a' = (handle_propose builder clock p a (t, w)).1 in
      let b1 = deliver p.leader d a' b in
      let b' = (handle_verify (engine_builder eth peer) q b1 (u, v)).1 in
      let (a_healthy, own, own_known, named) =
        handle_propose_known builder clock p a (t, w) d infos pending answered in
      let (info, known, known') =
        deliver_agrees eth engine peer decodes honours clock p a t w d infos pending answered size b
          u v q b_infos b_received unknown same_payload same_proposer same_round accepted in
      let hash : info.hash ≡ d.inner = ground (arith, own_known, known, named) in
      let b_healthy : b'.block_info.poisoned ≡ false =
        handle_verify_keeps_lock (engine_builder eth peer) q b1 (u, v)
        ∙ ap (λ l. l.poisoned) (deliver_keeps_infos p.leader d a' b)
        ∙ b_infos in
      (
        info.number,
        finalize_moves engine d a'.block_info t' w' info f a_healthy known
              (ap (λ h. (engine.fork_choice_updated (final_state h) none w').0) hash ∙ final)
              f_valid
            ∙ ap (λ h. (h, info.number)) hash,
        finalize_moves peer d b'.block_info u' v' info g b_healthy known'
              (ap (λ h. (peer.fork_choice_updated (final_state h) none v').0) hash ∙ final') g_valid
            ∙ ap (λ h. (h, info.number)) hash,
      )
