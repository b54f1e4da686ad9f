-- ===== src/Network/Moving.antt =====
-- What one round of the finalizer makes of the tracker, among all its rounds.
use allegro.Prelude.{
  ◌≡◌, sym, ◌∙◌, subst, List, [], ◌∷◌, ◌++◌, map, none, some, ok, false, arith, ◌⊎◌, inl, inr,
  Bool-cases, Option-cases,
}
use allegro.Prelude.Dict.{get}
use allegro.Prelude.Lock.{Lock}
use allegro.Primitives.Digest.{Digest, digest_eq}
use allegro.Consensus.Application.{BlockInfo, BlockInfos}
use allegro.Node.Reth.{Engine, ForkchoiceUpdated, valid}
use allegro.Node.Builder.{Tracker}
use allegro.Node.Finalizer.{final_state, finalize}
use allegro.Node.Finalizer.Tracking.{after_fcu-cases}
use allegro.Network.System.{Among, first, later}

Among-left : {A : Type 0} (u : A) (us vs : List A) → Among u us → Among u (us ++ vs)
Among-left u us vs first = first
Among-left u us vs (later h) = later (Among-left u _ vs h)

Among-last : {A : Type 0} (u : A) (us : List A) → Among u (us ++ u ∷ [])
Among-last u [] = first
Among-last u (v ∷ us) = later (Among-last u us)

-- A round of the finalizer: the digest that it took, and the known blocks and the execution layer as
-- they were.
pub record Turn (W : Type 0) : Type 0 where
  pub digest : Digest
  pub infos : Lock BlockInfos
  pub world : W

abbrev pub taken : {W : Type 0} → List (Turn W) → List Digest
taken us = map (λ u. u.digest) us

module _ {W B X : Type 0} (engine : Engine W B X) where
  -- A round put the tracker where it is: it found the block of its digest among the blocks that were
  -- known then, and the engine, as it was then, took that block as head.
  pub record Moved (u : Turn W) (t : Tracker) : Type 0 where
    pub info : BlockInfo
    pub healthy : u.infos.poisoned ≡ false
    pub known : get u.infos.contents u.digest ≡ some info
    pub hash : t.0 ≡ info.hash
    pub number : t.1 ≡ info.number
    pub fcu : ForkchoiceUpdated
    pub answered :
        (engine.fork_choice_updated
          (record {
            head_block_hash = info.hash;
            safe_block_hash = info.hash;
            finalized_block_hash = info.hash;
          })
          none
          u.world).0
        ≡ ok fcu
    pub validated : fcu.payload_status ≡ valid

  round-Moved :
      (d : Digest) (infos : Lock BlockInfos) (t : Tracker) (w : W)
      → let t' = (finalize engine d infos t w).0 in
        (t' ≡ t) ⊎ Moved (record { digest = d; infos = infos; world = w }) t'
  unfolding finalize
  round-Moved d infos t w = elim (Bool-cases infos.poisoned) [
    | inl p ↦ inl (ground arith)
    | inr p ↦ elim (Option-cases (get infos.contents d)) [
      | inl unknown ↦ inl (ground arith)
      | inr (info, known) ↦
          elim (after_fcu-cases engine info
            (engine.fork_choice_updated (final_state info.hash) none w).0 t) [
              | inl same ↦ inl (ground arith)
              | inr (fcu, answered, validated, moved) ↦ inr (record {
                info = info;
                healthy = p;
                known = known;
                hash = ground (arith, moved);
                number = ground (arith, moved);
                fcu = fcu;
                answered = answered;
                validated = validated;
              })
            ]
    ]
  ]

  pub round-tracks :
      (t0 : Tracker) (us : List (Turn W)) (d : Digest) (infos : Lock BlockInfos) (t : Tracker)
      (w : W)
      → (t ≡ t0) ⊎ ((u : Turn W) × Among u us × Moved u t)
      → let t' = (finalize engine d infos t w).0 in
        let us' = us ++ record { digest = d; infos = infos; world = w } ∷ [] in
        (t' ≡ t0) ⊎ ((u : Turn W) × Among u us' × Moved u t')
  round-tracks t0 us d infos t w h =
      let one : Turn W = record { digest = d; infos = infos; world = w } in
      elim (round-Moved d infos t w) [
        | inr moved ↦ inr (one, Among-last one us, moved)
        | inl same ↦ elim h [
          | inl start ↦ inl (same ∙ start)
          | inr (u, there, moved) ↦
              inr (u, Among-left u us (one ∷ []) there, subst (Moved u) (sym same) moved)
        ]
      ]
