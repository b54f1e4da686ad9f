-- ===== src/Consensus/Application/Running.antt =====
-- The loop of the actor: what holds of the stores after any messages, at any times.
use allegro.Prelude.{
  ℕ, ◌/◌, ◌≤◌, ◌≡◌, List, [], ◌∷◌, Option, some, ok, u64_max, arith, ◌==◌, inl, inr, Bool-cases,
}
use allegro.Prelude.Dict.{get, insert, get-insert}
use allegro.Prelude.Lock.{Lock, write_guard}
use allegro.Primitives.Digest.{Bytes, Digest, digest_eq}
use allegro.Consensus.Executor.{BuiltPayload, BuildPayloadRequest, BlockMeta, valid, PayloadBuilder}
use allegro.Consensus.Application.{
  Actor, BlockInfo, BlockInfos, Message, verified_info, proposed_info, built_digest, run,
}
use allegro.Consensus.Application.Proposing.{IsTimed}
use allegro.Consensus.Application.Changes.{Change, keep, proposes, records, step-Change}

-- An invariant of every change holds after every run.
module _ {W : Type 0} (builder : PayloadBuilder W) (P : Actor → Type 0)
    (kept : (s s' : Actor) → Change builder s s' → P s → P s') where
  pub run_induction :
      (msgs : List (Option ℕ × Message)) (s : Actor) (w : W) → P s → P (run builder msgs s w).0
  unfolding run
  run_induction [] s w h = h
  run_induction ((clock, msg) ∷ msgs) s w h =
      run_induction msgs _ _ (kept s _ (step-Change builder clock msg s w) h)

-- Every block that is known is known with its time.
pub record AllTimed (infos : BlockInfos) : Type 0 where
  pub at : (d : Digest) (info : BlockInfo) → get infos d ≡ some info → IsTimed info

-- What the actor needs of the execution layer: a block is built at the seconds that were asked
-- for, and milliseconds are u64.
pub record IsPunctual {W : Type 0} (builder : PayloadBuilder W) : Type 0 where
  pub built :
      (request : BuildPayloadRequest) (w : W) (payload : BuiltPayload)
      → request.timestamp ≤ u64_max / 1000
      → (builder.build_payload request w).0 ≡ ok payload
      → (payload.timestamp_millis / 1000 ≡ request.timestamp) × (payload.timestamp_millis ≤ u64_max)
  pub judged :
      (bytes parent : Bytes) (w : W) (meta : BlockMeta)
      → (builder.validate_block bytes parent w).0 ≡ ok (valid meta)
      → meta.timestamp_millis ≤ u64_max

pub AllTimed-insert :
    (infos : BlockInfos) (d : Digest) (info : BlockInfo)
    → AllTimed infos
    → IsTimed info
    → AllTimed (insert infos d info)
AllTimed-insert infos d info h t = record {
  at = λ j i e. elim (Bool-cases (d == j)) [
    | inl hit ↦ ground (arith, get-insert infos d j info, t)
    | inr miss ↦ h.at j i (ground (arith, get-insert infos d j info))
  ];
}

-- A write under a lock keeps what an insertion keeps.
pub write_guard-keeps {ℓ κ} :
    {A : Type ℓ} (P : A → Type κ) (f : A → A) (l : Lock A)
    → (P l.contents → P (f l.contents))
    → P l.contents
    → P (write_guard f l).contents
write_guard-keeps P f l k h = elim (Bool-cases l.poisoned) [ inl p ↦ rw p h | inr p ↦ rw p (k h) ]

module _ {W : Type 0} (builder : PayloadBuilder W) (punctual : IsPunctual builder) where
  pub Change-AllTimed :
      (s s' : Actor)
      → Change builder s s'
      → AllTimed s.block_info.contents
      → AllTimed s'.block_info.contents
  Change-AllTimed s s' (keep k) h = rw k.same_info h
  Change-AllTimed s s' (proposes p) h = rw p.new_info (
      write_guard-keeps AllTimed
        (λ infos. insert infos (built_digest p.payload) (proposed_info p.msg p.request p.payload))
        s.block_info
        (λ t.
          AllTimed-insert s.block_info.contents (built_digest p.payload)
            (proposed_info p.msg p.request p.payload) t
            (ground
              (arith, punctual.built p.request p.world p.payload, p.built, p.asked, p.in_range)))
        h)
  Change-AllTimed s s' (records r) h = rw r.new_info (
      write_guard-keeps AllTimed (λ infos. insert infos r.msg.payload (verified_info r.msg r.meta))
        s.block_info
        (λ t. AllTimed-insert s.block_info.contents r.msg.payload (verified_info r.msg r.meta) t (
          ground (
            arith,
            punctual.judged r.bytes r.msg.parent_digest.inner r.world r.meta,
            r.judged,
            r.timed,
          )))
        h)

  -- If every known block has whole seconds of its milliseconds in 64 bits, this still holds after
  -- any messages at any clock readings, for every execution layer that builds at the seconds that
  -- were asked for and reports milliseconds in 64 bits.
  pub run-AllTimed :
      (msgs : List (Option ℕ × Message)) (s : Actor) (w : W)
      → AllTimed s.block_info.contents
      → AllTimed (run builder msgs s w).0.block_info.contents
  run-AllTimed msgs s w =
      run_induction builder (λ a. AllTimed a.block_info.contents) Change-AllTimed msgs s w
