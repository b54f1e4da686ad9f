-- ===== src/Network/Finality.antt =====
-- A proposed block that becomes final, from the leader's actor over the reporter and its channel to
-- the finalizer and the tracker that the build closure reads.
use allegro.Prelude.{
  ℕ, ◌+◌, ◌≤◌, ◌<◌, ◌≡◌, refl, sym, ap, ◌∙◌, subst, true, false, List, [], ◌∷◌, ◌++◌, Option, none,
  some, ok, length, arith,
}
use allegro.Prelude.Dict.{get}
use allegro.Prelude.Lock.{Lock}
use allegro.Primitives.Digest.{Digest, digest_eq}
use allegro.Consensus.Application.{
  Actor, BlockInfo, BlockInfos, Propose, propose_request, proposed_info, handle_propose,
  after_build,
}
use allegro.Consensus.Channel.{Channel}
use allegro.Consensus.Executor.{PayloadBuilder}
use allegro.Consensus.Reporter.{
  Activity, MetricsReporter, finalization, forward, report, report_all,
}
use allegro.Consensus.Reporter.Forwarding.{finalized, report_all-queued}
use allegro.Node.Reth.{Engine, EthFormat, ForkchoiceUpdated, valid}
use allegro.Node.Builder.{Tracker}
use allegro.Node.Finalizer.{final_state, finalize, finalize_all, finalize_rounds}
use allegro.Node.Finalizer.Tracking.{finalize_moves}
use allegro.Network.{engine_builder}
use allegro.Network.Agreement.{handle_propose_built, handle_propose_stores}

module _ {W B X C : Type 0} (engine : Engine W B X) (channel : Channel Digest C) where
  -- As many rounds as there are digests in the channel finalize these digests in their order.
  finalize_rounds-queued :
      (ds : List Digest) (rx : C) (infos : Lock BlockInfos) (t : Tracker) (w : W)
      → channel.queued rx ≡ ds
      → (finalize_rounds engine channel (length ds) rx infos t w).0
        ≡ finalize_all engine ds infos t w
  unfolding finalize_rounds finalize_all
  finalize_rounds-queued [] rx infos t w e = refl
  finalize_rounds-queued (d ∷ ds) rx infos t w e =
      let (taken, rest) = channel.next-queued rx d ds e in
      let (t', w') = finalize engine d infos t w in
      rw (finalize_rounds, taken) (finalize_rounds-queued ds (channel.next rx).1 infos t' w' rest)

  finalize_all-append :
      (ds : List Digest) (d : Digest) (infos : Lock BlockInfos) (t : Tracker) (w : W)
      → let (t', w') = finalize_all engine ds infos t w in
        finalize_all engine (ds ++ d ∷ []) infos t w ≡ finalize engine d infos t' w'
  unfolding finalize_all
  finalize_all-append [] d infos t w = refl
  finalize_all-append (e ∷ ds) d infos t w =
      finalize_all-append ds d infos (finalize engine e infos t w).0 (finalize engine e infos t w).1

  -- If the channel to the finalizer is open and has room for all finalized digests of the reports,
  -- then after the reports as many rounds of the finalizer as there are digests in the channel do
  -- what finalizing, one after the other, the digests that were queued before and all finalized
  -- digests of the reports does.
  pub reports_finalize :
      (acts : List Activity) (r : MetricsReporter C) (tx : C)
      → r.finalized_tx ≡ some tx
      → channel.is_open tx ≡ true
      → length (channel.queued tx) + length (finalized acts) ≤ channel.capacity tx
      → (infos : Lock BlockInfos) (u : Tracker) (v : W)
      → (rx : C) × ((report_all channel acts r).finalized_tx ≡ some rx)
        × ((finalize_rounds engine channel (length (channel.queued rx)) rx infos u v).0
            ≡ finalize_all engine (channel.queued tx ++ finalized acts) infos u v)
  reports_finalize acts r tx linked live room infos u v =
      let (rx, linked', queue) = report_all-queued channel acts r tx linked live room in
      (
        rx,
        linked',
        finalize_rounds-queued (channel.queued rx) rx infos u v refl
            ∙ ap (λ ds. finalize_all engine ds infos u v) queue,
      )

-- What the proposer's map holds of its block has the hash that the digest names.
pub handle_propose_known :
    {W : Type 0} (builder : PayloadBuilder W) (clock : Option ℕ) (msg : Propose) (s : Actor) (w : W)
    (d : Digest)
    → s.block_info.poisoned ≡ false
    → s.pending_blocks.poisoned ≡ false
    → (handle_propose builder clock msg s w).0 ≡ some d
    → let infos = (handle_propose builder clock msg s w).1.block_info in
      (infos.poisoned ≡ false)
      × (info : BlockInfo) × (get infos.contents d ≡ some info)
      × (info.hash ≡ d.inner)
unfolding handle_propose after_build
handle_propose_known builder clock msg s w d healthy pending answered =
    let request = propose_request clock msg (get s.block_info.contents msg.parent_digest) in
    let (payload, built, named) = handle_propose_built builder clock msg s w d healthy answered in
    let infos = (handle_propose builder clock msg s w).1.block_info in
    let kept = (handle_propose_stores builder clock msg s w payload healthy pending built).1 in
    (
      ground arith,
      proposed_info msg request payload,
      subst (λ x. get infos.contents x ≡ some (proposed_info msg request payload)) (sym named) kept,
      sym (ap (λ x. x.inner) named),
    )

module _ {W B X C : Type 0} (eth : EthFormat B X) (engine : Engine W B X)
    (channel : Channel Digest C) where
  -- A leader whose stores are not poisoned answers a proposal with a digest. If that digest is then
  -- reported as final, the channel to the finalizer is open and has room, and the engine, after the
  -- finalizations of what was in the channel before, answers the forkchoice update to the hash that
  -- the digest names with a valid status, then as many rounds of the finalizer as there are digests
  -- in the channel leave the tracker at the hash, which the digest names, and the number of the
  -- leader's known block under it.
  pub proposed_finalizes :
      (clock : Option ℕ) (p : Propose) (a : Actor) (t : Tracker) (w : W) (d : Digest)
      → a.block_info.poisoned ≡ false
      → a.pending_blocks.poisoned ≡ false
      → (handle_propose (engine_builder eth engine) clock p a (t, w)).0 ≡ some d
      → (view : ℕ) (r : MetricsReporter C) (tx : C) → r.finalized_tx ≡ some tx
      → channel.is_open tx ≡ true
      → length (channel.queued tx) < channel.capacity tx
      → (u : Tracker) (v : W) (fcu : ForkchoiceUpdated)
      → (engine.fork_choice_updated
          (final_state d.inner)
          none
          (finalize_all engine
            (channel.queued tx)
            (handle_propose (engine_builder eth engine) clock p a (t, w)).1.block_info
            u
            v).1).0
        ≡ ok fcu
      → fcu.payload_status ≡ valid
      → let infos = (handle_propose (engine_builder eth engine) clock p a (t, w)).1.block_info in
        (rx : C) × ((report channel (finalization view d) r).1.finalized_tx ≡ some rx)
        × (info : BlockInfo) × (get infos.contents d ≡ some info)
        × (info.hash ≡ d.inner)
        × ((finalize_rounds engine channel (length (channel.queued rx)) rx infos u v).0.0
            ≡ (info.hash, info.number))
  unfolding report forward
  proposed_finalizes clock p a t w d healthy pending answered view r tx linked live room u v fcu
        final validated =
      let builder = engine_builder eth engine in
      let infos = (handle_propose builder clock p a (t, w)).1.block_info in
      let qs = channel.queued tx in
      let rx = (channel.try_send d tx).1 in
      let (sound, info, known, named) =
        handle_propose_known builder clock p a (t, w) d healthy pending answered in
      let before = finalize_all engine qs infos u v in
      (
        rx,
        ap (forward channel d) linked,
        info,
        known,
        named,
        ap (λ s. s.0)
              (finalize_rounds-queued engine channel (channel.queued rx) rx infos u v refl
                ∙ ap (λ ds. finalize_all engine ds infos u v) (channel.send-ok d tx live room).1
                ∙ finalize_all-append engine channel qs d infos u v)
            ∙ finalize_moves engine d infos before.0 before.1 info fcu sound known
                (ap (λ h. (engine.fork_choice_updated (final_state h) none before.1).0) named
                  ∙ final)
                validated,
      )
