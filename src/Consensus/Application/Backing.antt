-- ===== src/Consensus/Application/Backing.antt =====
-- What stays available: the bytes of every proposal.
use allegro.Prelude.{
  ℕ, ◌≡◌, false, List, [], ◌∷◌, ◌++◌, Option, some, arith, ◌==◌, inl, inr, Bool-cases,
}
use allegro.Prelude.Dict.{get, insert, get-insert, get-insert_self}
use allegro.Primitives.Digest.{Bytes, Digest, digest_eq}
use allegro.Consensus.Executor.{PayloadBuilder}
use allegro.Consensus.Application.{Actor, Blocks, Message, built_digest, run}
use allegro.Consensus.Application.Changes.{Change, keep, proposes, records}
use allegro.Consensus.Application.Running.{run_induction, write_guard-keeps}

-- The bytes of each of these digests are there.
abbrev pub Backed : Blocks → List Digest → Type 0
Backed blocks [] = Unit {0}
Backed blocks (d ∷ ds) = ((bytes : Bytes) × (get blocks d ≡ some bytes)) × Backed blocks ds

Backed-insert :
    (blocks : Blocks) (d : Digest) (bytes : Bytes) (ds : List Digest)
    → Backed blocks ds
    → Backed (insert blocks d bytes) ds
Backed-insert blocks d bytes [] h = tt
Backed-insert blocks d bytes (j ∷ ds) h = elim (Bool-cases (d == j)) [
  | inl hit ↦
      ((bytes, ground (arith, get-insert blocks d j bytes)), Backed-insert blocks d bytes ds h.1)
  | inr miss ↦ (
    (h.0.0, ground (arith, get-insert blocks d j bytes, h.0.1)),
    Backed-insert blocks d bytes ds h.1,
  )
]

Backed-push :
    (blocks : Blocks) (d : Digest) (bytes : Bytes) (ds : List Digest)
    → get blocks d ≡ some bytes
    → Backed blocks ds
    → Backed blocks (ds ++ d ∷ [])
Backed-push blocks d bytes [] e h = ((bytes, e), tt)
Backed-push blocks d bytes (j ∷ ds) e h = (h.0, Backed-push blocks d bytes ds e h.1)

-- Every digest that was proposed can be broadcast.
pub record IsBacked (s : Actor) : Type 0 where
  pub healthy : s.pending_blocks.poisoned ≡ false
  pub backed : Backed s.pending_blocks.contents s.proposals.contents

module _ {W : Type 0} (builder : PayloadBuilder W) where
  Change-IsBacked : (s s' : Actor) → Change builder s s' → IsBacked s → IsBacked s'
  Change-IsBacked s s' (keep k) h = record {
    healthy = rw k.same_pending h.healthy;
    backed = rw (k.same_pending, k.same_proposals) h.backed;
  }
  Change-IsBacked s s' (records r) h = record {
    healthy = rw r.same_pending h.healthy;
    backed = rw (r.same_pending, r.same_proposals) h.backed;
  }
  Change-IsBacked s s' (proposes p) h =
      let d = built_digest p.payload in
      let blocks = insert s.pending_blocks.contents d p.payload.block_bytes in
      let stored : s'.pending_blocks.contents ≡ blocks = ground (arith, p.new_pending, h.healthy) in
      record {
        healthy = ground (arith, p.new_pending, h.healthy);
        backed =
            rw (stored, p.new_proposals)
              (write_guard-keeps (Backed blocks) (λ ds. ds ++ d ∷ []) s.proposals
                (λ b.
                  Backed-push blocks d p.payload.block_bytes s.proposals.contents
                    (get-insert_self s.pending_blocks.contents d p.payload.block_bytes) b)
                (Backed-insert s.pending_blocks.contents d p.payload.block_bytes
                  s.proposals.contents h.backed));
      }

  pub run-IsBacked :
      (msgs : List (Option ℕ × Message)) (s : Actor) (w : W)
      → IsBacked s
      → IsBacked (run builder msgs s w).0
  run-IsBacked msgs s w = run_induction builder IsBacked Change-IsBacked msgs s w
