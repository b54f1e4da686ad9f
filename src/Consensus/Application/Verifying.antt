-- ===== src/Consensus/Application/Verifying.antt =====
-- Verifying: when a proposal is accepted, what it leaves in the stores, and how it is counted.
use allegro.Prelude.{
  ◌/◌, ◌≡◌, ◌↔◌, refl, true, false, Option, none, some, Result, ok, err, arith, ◌==◌, if◌then◌else◌,
  inl, inr, Option-cases,
}
use allegro.Prelude.Dict.{get, get-insert}
use Prim.Native.String.{String}
use allegro.Primitives.Digest.{Bytes, Digest, digest_eq, public_key_eq}
use allegro.Consensus.Validators.{Address, set_lookup}
use allegro.Consensus.Executor.{BlockMeta, ValidationResult, valid, invalid, PayloadBuilder}
use allegro.Consensus.Metrics.{Metrics, reading, inc}
use allegro.Consensus.Application.{
  Actor, Verify, verified_info, handle_verify, find_block, verify_bytes, after_validate,
}

after_validate_sound :
    (msg : Verify) (verdict : Result ValidationResult String) (s : Actor)
    → (after_validate msg verdict s).0 ≡ true
    → (meta : BlockMeta) × (verdict ≡ ok (valid meta))
      × (meta.timestamp_millis / 1000 ≡ meta.timestamp)
unfolding after_validate
after_validate_sound msg (err e) s h = cc
after_validate_sound msg (ok (invalid reason)) s h = cc
after_validate_sound msg (ok (valid meta)) s h = (meta, refl, ground arith)

module _ {W : Type 0} (builder : PayloadBuilder W) where
  -- All that an accepted proposal needs; the execution layer's verdict is on the bytes that were found.
  pub record Accepts (msg : Verify) (s : Actor) (w : W) : Type 0 where
    pub address : Address
    pub known : set_lookup s.validators msg.proposer ≡ some address
    pub healthy : s.pending_blocks.poisoned ≡ false
    pub bytes : Bytes
    pub found : find_block msg.payload s ≡ some bytes
    pub meta : BlockMeta
    pub judged : (builder.validate_block bytes msg.parent_digest.inner w).0 ≡ ok (valid meta)
    pub timed : meta.timestamp_millis / 1000 ≡ meta.timestamp

  verify_bytes_sound :
      (msg : Verify) (found : Option Bytes) (s : Actor) (w : W)
      → (verify_bytes builder msg found s w).0 ≡ true
      → (bytes : Bytes) × (meta : BlockMeta) × (found ≡ some bytes)
        × ((builder.validate_block bytes msg.parent_digest.inner w).0 ≡ ok (valid meta))
        × (meta.timestamp_millis / 1000 ≡ meta.timestamp)
  unfolding verify_bytes
  verify_bytes_sound msg none s w h = cc
  verify_bytes_sound msg (some bytes) s w h =
      let (meta, judged, timed) =
        after_validate_sound msg (builder.validate_block bytes msg.parent_digest.inner w).0 s h in
      (bytes, meta, refl, judged, timed)

  pub handle_verify_sound :
      (msg : Verify) (s : Actor) (w : W)
      → (handle_verify builder msg s w).0 ≡ true
      → Accepts msg s w
  unfolding handle_verify
  handle_verify_sound msg s w h = elim (Option-cases (set_lookup s.validators msg.proposer)) [
    | inl unknown ↦ absurd (ground arith)
    | inr (address, known) ↦
        let (bytes, meta, found, judged, timed) =
          verify_bytes_sound msg (find_block msg.payload s) s w (ground arith) in
        record {
          address = address;
          known = known;
          healthy = ground arith;
          bytes = bytes;
          found = found;
          meta = meta;
          judged = judged;
          timed = timed;
        }
  ]

  pub handle_verify_complete :
      (msg : Verify) (s : Actor) (w : W)
      → Accepts msg s w
      → (handle_verify builder msg s w).0 ≡ true
  unfolding handle_verify
  handle_verify_complete msg s w a = ground (arith, a.known, a.healthy, a.found, a.judged, a.timed)

  pub handle_verify_iff :
      (msg : Verify) (s : Actor) (w : W)
      → ((handle_verify builder msg s w).0 ≡ true) ↔ Accepts msg s w
  handle_verify_iff msg s w = (handle_verify_sound msg s w, handle_verify_complete msg s w)

  -- If a proposal has all that acceptance needs and the known blocks are not poisoned, then after
  -- its verification the known block under its digest is the record of the execution layer's
  -- verdict, and under every other digest what it was.
  pub handle_verify_records :
      (msg : Verify) (s : Actor) (w : W) (a : Accepts msg s w)
      → s.block_info.poisoned ≡ false
      → (j : Digest)
      → get (handle_verify builder msg s w).1.block_info.contents j ≡ (
          if msg.payload == j then some (verified_info msg a.meta) else get s.block_info.contents j)
  unfolding handle_verify
  handle_verify_records msg s w a h j = ground (
    arith,
    a.known,
    a.healthy,
    a.found,
    a.judged,
    a.timed,
    get-insert s.block_info.contents msg.payload j (verified_info msg a.meta),
  )

  -- A proposal that is refused, for whatever reason, changes nothing of the actor but its metrics.
  pub handle_verify_refused :
      (msg : Verify) (s : Actor) (w : W)
      → (handle_verify builder msg s w).0 ≡ false
      → (handle_verify builder msg s w).1
        ≡ record s { metrics = (handle_verify builder msg s w).1.metrics }
  unfolding handle_verify
  handle_verify_refused msg s w h = ground arith

  pub handle_verify_counts :
      (msg : Verify) (s : Actor) (w : W) (m : Metrics)
      → s.metrics ≡ some m
      → s.pending_blocks.poisoned ≡ false
      → let r = handle_verify builder msg s w in
        (reading (λ m. m.blocks_verified) r.1.metrics
          ≡ (if r.0 then inc m.blocks_verified else m.blocks_verified))
        × (reading (λ m. m.failed_validations) r.1.metrics
            ≡ (if r.0 then m.failed_validations else inc m.failed_validations))
  unfolding handle_verify
  handle_verify_counts msg s w m e h = ground arith
