-- ===== src/Consensus/Application/Counting.antt =====
-- How the messages are counted. The counters are u64 and wrap around.
use allegro.Prelude.{
  ℕ, ◌+◌, ◌≡◌, Bool, true, false, List, [], ◌∷◌, Option, none, some, arith, wrap_u64,
}
use allegro.Primitives.Digest.{public_key_eq, digest_eq}
use allegro.Consensus.Executor.{PayloadBuilder}
use allegro.Consensus.Metrics.{Metrics, reading}
use allegro.Consensus.Application.{
  Actor, Message, propose, verify, broadcast, Propose, Verify, handle_propose, handle_verify, step,
  run,
}

abbrev pub count_verify : Message → ℕ
count_verify (verify _) = 1
count_verify _ = 0

abbrev pub count_propose : Message → ℕ
count_propose (propose _) = 1
count_propose _ = 0

abbrev pub total : (Message → ℕ) → List (Option ℕ × Message) → ℕ
total f [] = 0
total f ((clock, msg) ∷ msgs) = f msg + total f msgs

abbrev pub collects : Option Metrics → Bool
collects none = false
collects (some m) = true

-- Metrics are collected, and no holder of the proposed blocks has panicked.
pub record IsCounting (s : Actor) : Type 0 where
  pub collected : collects s.metrics ≡ true
  pub healthy : s.pending_blocks.poisoned ≡ false

-- The verifications that were answered, either way.
abbrev pub answered : Actor → ℕ
answered s =
    reading (λ m. m.blocks_verified) s.metrics + reading (λ m. m.failed_validations) s.metrics

abbrev pub proposed : Actor → ℕ
proposed s = reading (λ m. m.blocks_proposed) s.metrics

-- The counters after one message.
pub record Counts (s s' : Actor) (msg : Message) : Type 0 where
  pub counting : IsCounting s'
  pub answers : wrap_u64 (answered s') ≡ wrap_u64 (answered s + count_verify msg)
  pub proposals : wrap_u64 (proposed s') ≡ wrap_u64 (proposed s + count_propose msg)
  pub tries : wrap_u64 s'.proposal_count ≡ wrap_u64 (s.proposal_count + count_propose msg)

module _ {W : Type 0} (builder : PayloadBuilder W) where
  handle_propose-Counts :
      (clock : Option ℕ) (msg : Propose) (s : Actor) (w : W)
      → IsCounting s
      → Counts s (handle_propose builder clock msg s w).1 (propose msg)
  unfolding handle_propose
  handle_propose-Counts clock msg s w h = ground arith

  handle_verify-Counts :
      (msg : Verify) (s : Actor) (w : W)
      → IsCounting s
      → Counts s (handle_verify builder msg s w).1 (verify msg)
  unfolding handle_verify
  handle_verify-Counts msg s w h = ground arith

  step-Counts :
      (clock : Option ℕ) (msg : Message) (s : Actor) (w : W)
      → IsCounting s
      → Counts s (step builder clock msg s w).0 msg
  unfolding step
  step-Counts clock (propose msg) s w h = handle_propose-Counts clock msg s w h
  step-Counts clock (verify msg) s w h = handle_verify-Counts msg s w h
  step-Counts clock (broadcast d) s w h = ground arith

  -- If metrics are collected and the own blocks are not poisoned, then over any messages the
  -- verified and the failed blocks together grow by the number of verifications, the proposed
  -- blocks by the number of proposals, and so does the actor's own count of proposals, modulo 2^64.
  pub run_counts :
      (msgs : List (Option ℕ × Message)) (s : Actor) (w : W)
      → IsCounting s
      → let s' = (run builder msgs s w).0 in
        (wrap_u64 (answered s') ≡ wrap_u64 (answered s + total count_verify msgs))
        × (wrap_u64 (proposed s') ≡ wrap_u64 (proposed s + total count_propose msgs))
        × (wrap_u64 s'.proposal_count ≡ wrap_u64 (s.proposal_count + total count_propose msgs))
  unfolding run
  run_counts [] s w h = omega arith
  run_counts ((clock, msg) ∷ msgs) s w h =
      let c = step-Counts clock msg s w h in
      omega (
        arith,
        c.answers,
        c.proposals,
        c.tries,
        run_counts msgs (step builder clock msg s w).0 (step builder clock msg s w).1 c.counting,
      )
