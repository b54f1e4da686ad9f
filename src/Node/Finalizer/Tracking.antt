-- ===== src/Node/Finalizer/Tracking.antt =====
-- Where the tracker can point, and when it moves.
use allegro.Prelude.{
  ◌≡◌, refl, false, List, [], ◌∷◌, none, some, Result, ok, err, arith, ◌⊎◌, inl, inr, Option-cases,
  Bool-cases, ◌∙◌,
}
use Prim.Native.String.{String}
use allegro.Prelude.Dict.{get}
use allegro.Prelude.Lock.{Lock}
use allegro.Primitives.Digest.{Digest, digest_eq}
use allegro.Consensus.Application.{BlockInfo, BlockInfos}
use allegro.Node.Reth.{Engine, ForkchoiceUpdated, PayloadStatus, valid, syncing, accepted, invalid}
use allegro.Node.Builder.{Tracker}
use allegro.Node.Finalizer.{after_fcu, final_state, finalize, finalize_all}

-- The digest is one of those that came from the channel.
pub data Listed (d : Digest) : List Digest → Type 0 where
  first : {ds : List Digest} → Listed d (d ∷ ds)
  later : {e : Digest} {ds : List Digest} → Listed d ds → Listed d (e ∷ ds)

-- The tracker holds the block of a digest that was finalized and known, after the engine took it
-- as head in some state.
pub record Finalized {W B X : Type 0} (engine : Engine W B X) (infos : Lock BlockInfos)
    (ds : List Digest) (t : Tracker) : Type 0 where
  pub digest : Digest
  pub listed : Listed digest ds
  pub info : BlockInfo
  pub known : get infos.contents digest ≡ some info
  pub tracked : t ≡ (info.hash, info.number)
  pub world : W
  pub fcu : ForkchoiceUpdated
  pub answered : (engine.fork_choice_updated (final_state info.hash) none world).0 ≡ ok fcu
  pub validated : fcu.payload_status ≡ valid

module _ {W B X : Type 0} (engine : Engine W B X) where
  pub after_fcu-cases :
      (info : BlockInfo) (answer : Result ForkchoiceUpdated String) (t : Tracker)
      → (after_fcu info answer t ≡ t)
        ⊎ ((fcu : ForkchoiceUpdated) × (answer ≡ ok fcu)
            × (fcu.payload_status ≡ valid)
            × (after_fcu info answer t ≡ (info.hash, info.number)))
  unfolding after_fcu
  after_fcu-cases info (err e) t = inl refl
  after_fcu-cases info (ok fcu) t = go fcu.payload_status refl
    where
      go :
          (st : PayloadStatus)
          → fcu.payload_status ≡ st
          → (after_fcu info (ok fcu) t ≡ t)
            ⊎ ((f : ForkchoiceUpdated) × (◌≡◌ {A = Result ForkchoiceUpdated String} (ok fcu) (ok f))
                × (f.payload_status ≡ valid)
                × (after_fcu info (ok fcu) t ≡ (info.hash, info.number)))
      go valid e = inr (fcu, refl, e, rw (after_fcu, e) refl)
      go syncing e = inl (rw (after_fcu, e) refl)
      go accepted e = inl (rw (after_fcu, e) refl)
      go (invalid r) e = inl (rw (after_fcu, e) refl)

  -- One digest leaves the tracker, or moves it.
  pub finalize-cases :
      (d : Digest) (ds : List Digest) (infos : Lock BlockInfos) (t : Tracker) (w : W)
      → ((finalize engine d infos t w).0 ≡ t)
        ⊎ Finalized engine infos (d ∷ ds) (finalize engine d infos t w).0
  unfolding finalize
  finalize-cases d ds infos t w = elim (Bool-cases infos.poisoned) [
    | inl p ↦ inl (ground arith)
    | inr p ↦ elim (Option-cases (get infos.contents d)) [
      | inl unknown ↦ inl (ground arith)
      | inr (info, known) ↦
          elim (after_fcu-cases info (engine.fork_choice_updated (final_state info.hash) none w).0
            t) [
              | inl same ↦ inl (ground arith)
              | inr (fcu, answered, validated, moved) ↦ inr (record {
                digest = d;
                listed = first;
                info = info;
                known = known;
                tracked = ground arith;
                world = w;
                fcu = fcu;
                answered = answered;
                validated = validated;
              })
            ]
    ]
  ]

  -- The same of another list that has what this list has.
  pub Finalized-relist :
      (ds es : List Digest) (infos : Lock BlockInfos) (t : Tracker)
      → ((d : Digest) → Listed d ds → Listed d es)
      → Finalized engine infos ds t
      → Finalized engine infos es t
  Finalized-relist ds es infos t has f = record {
    digest = f.digest;
    listed = has f.digest f.listed;
    info = f.info;
    known = f.known;
    tracked = f.tracked;
    world = f.world;
    fcu = f.fcu;
    answered = f.answered;
    validated = f.validated;
  }

  -- After any finalized digests, the tracker is what it was, or the hash and the number of the
  -- known block of one of these digests, for which the engine, in some state, answered the
  -- forkchoice update to that block with a valid status.
  pub finalize_all_tracks :
      (ds : List Digest) (infos : Lock BlockInfos) (t : Tracker) (w : W)
      → let t' = (finalize_all engine ds infos t w).0 in (t' ≡ t) ⊎ Finalized engine infos ds t'
  unfolding finalize_all
  finalize_all_tracks [] infos t w = inl refl
  finalize_all_tracks (d ∷ ds) infos t w =
      let t1 = (finalize engine d infos t w).0 in
      let w1 = (finalize engine d infos t w).1 in
      elim (finalize_all_tracks ds infos t1 w1) [
        | inr f ↦ inr (Finalized-relist ds (d ∷ ds) infos _ (λ e there. later there) f)
        | inl same ↦ elim (finalize-cases d ds infos t w) [
          | inl unmoved ↦ inl (same ∙ unmoved)
          | inr f ↦ inr (rw same f)
        ]
      ]

  -- A finalized digest whose block is known, in a map that is not poisoned, and to which the engine
  -- answers with a valid status, moves the tracker to the hash and the number of that block.
  pub finalize_moves :
      (d : Digest) (infos : Lock BlockInfos) (t : Tracker) (w : W) (info : BlockInfo)
      (fcu : ForkchoiceUpdated)
      → infos.poisoned ≡ false
      → get infos.contents d ≡ some info
      → (engine.fork_choice_updated (final_state info.hash) none w).0 ≡ ok fcu
      → fcu.payload_status ≡ valid
      → (finalize engine d infos t w).0 ≡ (info.hash, info.number)
  unfolding finalize
  finalize_moves d infos t w info fcu healthy known answered validated = ground arith
