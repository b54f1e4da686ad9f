-- ===== src/Node/Finalizer/Stepwise.antt =====
-- The loop of crates/node/src/finalizer.rs by its wait: it looks a digest up, and other tasks run
-- before the engine answers the forkchoice update.
use allegro.Prelude.{
  ℕ, ◌≡◌, refl, Option, none, some, arith, ◌⊎◌, inl, inr, Bool-cases, if◌then◌else◌,
}
use allegro.Prelude.Dict.{get}
use allegro.Prelude.Lock.{Lock}
use allegro.Primitives.Digest.{Digest, digest_eq}
use allegro.Consensus.Application.{BlockInfo, BlockInfos}
use allegro.Node.Reth.{Engine, EthFormat, Jobs}
use allegro.Node.Builder.{Tracker}
use allegro.Node.Finalizer.{final_state, submit, finalize}
use allegro.Node.Finalizer.Tracking.{after_fcu-cases}

-- The block of a finalized digest, for which the loop asks the engine, if there is one.
abbrev pub look_up : Digest → Lock BlockInfos → Option BlockInfo
look_up digest infos = if infos.poisoned then none else get infos.contents digest

-- What is looked up is known.
pub look_up-known :
    (d : Digest) (infos : Lock BlockInfos) (info : BlockInfo)
    → look_up d infos ≡ some info
    → get infos.contents d ≡ some info
look_up-known d infos info e = ground arith

module _ {W B X : Type 0} (engine : Engine W B X) where
  -- With nothing in between, the loop does what its body as one step does.
  pub submit-look_up :
      (d : Digest) (infos : Lock BlockInfos) (t : Tracker) (w : W)
      → submit engine (look_up d infos) t w ≡ finalize engine d infos t w
  unfolding finalize
  submit-look_up d infos t w = elim (Bool-cases infos.poisoned) [
    | inl poisoned ↦ simp poisoned refl
    | inr healthy ↦ simp healthy refl
  ]

  -- The answer leaves the tracker, or moves it to the block that was looked up.
  pub submit-cases :
      (found : Option BlockInfo) (t : Tracker) (w : W)
      → ((submit engine found t w).0 ≡ t)
        ⊎ ((info : BlockInfo) × (found ≡ some info)
            × ((submit engine found t w).0 ≡ (info.hash, info.number)))
  unfolding submit
  submit-cases none t w = inl refl
  submit-cases (some info) t w =
      elim (after_fcu-cases engine info
        (engine.fork_choice_updated (final_state info.hash) none w).0 t) [
          | inl same ↦ inl same
          | inr (fcu, answered, validated, moved) ↦ inr (info, refl, moved)
        ]

-- The finalizer's forkchoice updates leave the payload jobs.
pub submit_keeps_jobs :
    {W B X : Type 0} (eth : EthFormat B X) (engine : Engine W B X) (jobs : Jobs eth engine)
    (found : Option BlockInfo) (t : Tracker) (w : W) (id seconds : ℕ)
    → jobs.Started w id seconds
    → jobs.Started (submit engine found t w).1 id seconds
unfolding submit
submit_keeps_jobs eth engine jobs none t w id seconds h = h
submit_keeps_jobs eth engine jobs (some info) t w id seconds h =
    jobs.kept_update (final_state info.hash) none w id seconds h
