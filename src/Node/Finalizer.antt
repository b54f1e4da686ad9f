-- ===== src/Node/Finalizer.antt =====
-- crates/node/src/finalizer.rs: finalized digests become forkchoice updates.
pub mod Tracking
pub mod Stepwise
use allegro.Prelude.{
  ℕ, zero, suc, Bool, true, false, List, [], ◌∷◌, Option, none, some, Result, ok, err,
  if◌then◌else◌,
}
use allegro.Prelude.Dict.{get}
use allegro.Prelude.Lock.{Lock}
use Prim.Native.String.{String}
use allegro.Primitives.Digest.{B256, Digest, digest_eq}
use allegro.Consensus.Executor.{ForkchoiceState}
use allegro.Consensus.Application.{BlockInfo, BlockInfos}
use allegro.Consensus.Channel.{Channel}
use allegro.Node.Reth.{Engine, is_valid, ForkchoiceUpdated}
use allegro.Node.Builder.{Tracker, set_finalized}

abbrev pub final_state : B256 → ForkchoiceState
final_state hash = record {
  head_block_hash = hash;
  safe_block_hash = hash;
  finalized_block_hash = hash;
}

-- The tracker after the engine's answer to a finalization.
unfoldable pub after_fcu : BlockInfo → Result ForkchoiceUpdated String → Tracker → Tracker
after_fcu info (ok fcu) tracker =
    if is_valid fcu.payload_status then set_finalized info.hash info.number tracker else tracker
after_fcu info (err e) tracker = tracker

module _ {W B X : Type 0} (engine : Engine W B X) where
  unfoldable pub submit : Option BlockInfo → Tracker → W → Tracker × W
  unfolding after_fcu
  submit none tracker w = (tracker, w)
  submit (some info) tracker w =
      let (answer, w') = engine.fork_choice_updated (final_state info.hash) none w in
      (after_fcu info answer tracker, w')

  -- The body of the loop, on a digest that came from the channel.
  unfoldable pub finalize : Digest → Lock BlockInfos → Tracker → W → Tracker × W
  unfolding submit
  finalize digest infos tracker w =
      if infos.poisoned then (tracker, w) else submit (get infos.contents digest) tracker w

  -- The loop, on the digests that come before the channel closes.
  unfoldable pub finalize_all : List Digest → Lock BlockInfos → Tracker → W → Tracker × W
  unfolding finalize
  finalize_all [] infos tracker w = (tracker, w)
  finalize_all (digest ∷ digests) infos tracker w =
      let (tracker', w') = finalize digest infos tracker w in finalize_all digests infos tracker' w'

module _ {W B X C : Type 0} (engine : Engine W B X) (channel : Channel Digest C) where
  -- Some rounds of the loop on the channel itself; it ends when the channel gives `none`.
  unfoldable pub finalize_rounds : ℕ → C → Lock BlockInfos → Tracker → W → (Tracker × W) × C
  unfolding finalize
  finalize_rounds zero rx infos tracker w = ((tracker, w), rx)
  finalize_rounds (suc n) rx infos tracker w =
      let (item, rx') = channel.next rx in
      elim item [
        | none ↦ ((tracker, w), rx')
        | some digest ↦
            let (tracker', w') = finalize engine digest infos tracker w in
            finalize_rounds n rx' infos tracker' w'
      ]
