-- ===== src/Network/Agreement.antt =====
-- A leader and a validator that accepts its block know that block alike.
use allegro.Prelude.{
  ℕ, ◌≡◌, refl, sym, ap, ◌∙◌, subst, true, false, Option, none, some, Result, ok, err, arith,
  ==_refl,
}
use allegro.Prelude.Dict.{get, get-insert_self}
use Prim.Native.String.{String}
use allegro.Primitives.Digest.{Bytes, IsB256, Digest, PublicKey, digest_eq}
use allegro.Consensus.Executor.{BuiltPayload, BlockMeta, BuildPayloadRequest, PayloadBuilder}
use allegro.Consensus.Executor
use allegro.Consensus.Application.{
  Actor, BlockInfo, Propose, Verify, propose_request, proposed_info, verified_info, built_digest,
  after_build, find_block, handle_propose, handle_verify, count_proposal,
}
use allegro.Consensus.Application.Verifying.{handle_verify_sound, handle_verify_records}
use allegro.Consensus.Relay.{wire, message, receive}
use allegro.Consensus.Relay.Wire.{receive-wire_contents, receive_keeps_lock}
use allegro.Node.Reth.{Engine, EthFormat, Decodes, Honours}
use allegro.Node.Builder.{Tracker, build, validate, create_engine_payload_builder}
use allegro.Node.Builder.Agreement.{validate-build}
use allegro.Network.{engine_builder, deliver}

after_build-cases :
    (msg : Propose) (request : BuildPayloadRequest) (built : Result BuiltPayload String) (s : Actor)
    (d : Digest)
    → (after_build msg request built s).0 ≡ some d
    → (payload : BuiltPayload) × (built ≡ ok payload) × (d ≡ built_digest payload)
unfolding after_build
after_build-cases msg request (err e) s d h = cc
after_build-cases msg request (ok payload) s d h = (payload, refl, ground arith)

-- A proposal that was answered was built.
pub handle_propose_built :
    {W : Type 0} (builder : PayloadBuilder W) (clock : Option ℕ) (msg : Propose) (s : Actor) (w : W)
    (d : Digest)
    → s.block_info.poisoned ≡ false
    → (handle_propose builder clock msg s w).0 ≡ some d
    → let request = propose_request clock msg (get s.block_info.contents msg.parent_digest) in
      (payload : BuiltPayload) × ((builder.build_payload request w).0 ≡ ok payload)
      × (d ≡ built_digest payload)
unfolding handle_propose
handle_propose_built builder clock msg s w d healthy h =
    let request = propose_request clock msg (get s.block_info.contents msg.parent_digest) in
    after_build-cases msg request (builder.build_payload request w).0 (count_proposal s) d
      (ground arith)

-- What the leader keeps of a block that was built.
pub handle_propose_stores :
    {W : Type 0} (builder : PayloadBuilder W) (clock : Option ℕ) (msg : Propose) (s : Actor) (w : W)
    (payload : BuiltPayload)
    → s.block_info.poisoned ≡ false
    → s.pending_blocks.poisoned ≡ false
    → let request = propose_request clock msg (get s.block_info.contents msg.parent_digest) in
      (builder.build_payload request w).0 ≡ ok payload
      → let s' = (handle_propose builder clock msg s w).1 in
        let d = built_digest payload in
        (get s'.pending_blocks.contents d ≡ some payload.block_bytes)
        × (get s'.block_info.contents d ≡ some (proposed_info msg request payload))
unfolding handle_propose
handle_propose_stores builder clock msg s w payload p q built =
    let request = propose_request clock msg (get s.block_info.contents msg.parent_digest) in
    let d = built_digest payload in
    (
      ground (arith, get-insert_self s.pending_blocks.contents d payload.block_bytes),
      ground (arith, get-insert_self s.block_info.contents d (proposed_info msg request payload)),
    )

-- Delivery changes the received blocks and the metrics.
pub deliver_record :
    (leader : PublicKey) (d : Digest) (a b : Actor) (block_bytes : Bytes)
    → get a.pending_blocks.contents d ≡ some block_bytes
    → let r = receive (message leader (wire d block_bytes)) b.received_blocks b.metrics in
      deliver leader d a b ≡ record b { received_blocks = r.0; metrics = r.1 }
unfolding deliver
deliver_record leader d a b block_bytes sent = rw (sent, deliver) refl

pub deliver_keeps_infos :
    (leader : PublicKey) (d : Digest) (a b : Actor)
    → (deliver leader d a b).block_info ≡ b.block_info
unfolding deliver
deliver_keeps_infos leader d a b = ground arith

pub find_block-received :
    (d : Digest) (s : Actor) (block_bytes : Bytes)
    → get s.pending_blocks.contents d ≡ none
    → s.received_blocks.poisoned ≡ false
    → get s.received_blocks.contents d ≡ some block_bytes
    → find_block d s ≡ some block_bytes
unfolding find_block
find_block-received d s block_bytes unknown healthy stored = ground arith

-- The block arrives under its digest, with its bytes.
pub find_block-deliver :
    (leader : PublicKey) (d : Digest) (a b : Actor) (block_bytes : Bytes)
    → IsB256 d.inner
    → get a.pending_blocks.contents d ≡ some block_bytes
    → b.received_blocks.poisoned ≡ false
    → get b.pending_blocks.contents d ≡ none
    → find_block d (deliver leader d a b) ≡ some block_bytes
find_block-deliver leader d a b block_bytes size sent healthy unknown =
    let m = message leader (wire d block_bytes) in
    let r = receive m b.received_blocks b.metrics in
    let stored =
      receive-wire_contents leader d block_bytes b.received_blocks b.metrics size healthy in
    subst (λ c. find_block d c ≡ some block_bytes)
      (sym (deliver_record leader d a b block_bytes sent))
      (find_block-received d (record b { received_blocks = r.0; metrics = r.1 }) block_bytes unknown
        (receive_keeps_lock m b.received_blocks b.metrics ∙ healthy)
        (ap (λ c. get c d) stored ∙ get-insert_self b.received_blocks.contents d block_bytes))

module _ {V B X : Type 0} (eth : EthFormat B X) (peer : Engine V B X) where
  -- What the validator keeps of a block that it accepted, and the bytes that it judged.
  handle_verify-deliver :
      (leader : PublicKey) (a b : Actor) (d : Digest) (block_bytes : Bytes) (u : Tracker) (v : V)
      (q : Verify)
      → IsB256 d.inner
      → get a.pending_blocks.contents d ≡ some block_bytes
      → b.block_info.poisoned ≡ false
      → b.received_blocks.poisoned ≡ false
      → get b.pending_blocks.contents d ≡ none
      → q.payload ≡ d
      → let r = handle_verify (engine_builder eth peer) q (deliver leader d a b) (u, v) in
        r.0 ≡ true
        → (meta : BlockMeta) × ((validate eth peer
              (record { block_bytes = block_bytes; parent_hash = q.parent_digest.inner })
              v).0
            ≡ ok (Executor.valid meta))
          × (get r.1.block_info.contents d ≡ some (verified_info q meta))
  unfolding create_engine_payload_builder
  handle_verify-deliver leader a b d block_bytes u v q size sent b_infos b_received unknown same
        accepted =
      let b1 = deliver leader d a b in
      let acc = handle_verify_sound (engine_builder eth peer) q b1 (u, v) accepted in
      let found = find_block-deliver leader d a b block_bytes size sent b_received unknown in
      let healthy : b1.block_info.poisoned ≡ false =
        rw (deliver_record leader d a b block_bytes sent) b_infos in
      let same_bytes : acc.bytes ≡ block_bytes = ground (arith, found, acc.found, same) in
      (
        acc.meta,
        rw (← same_bytes) acc.judged,
        ground (
          arith,
          handle_verify_records (engine_builder eth peer) q b1 (u, v) acc healthy d,
          same,
          ==_refl d,
        ),
      )

module _ {V W B X : Type 0} (eth : EthFormat B X) (engine : Engine W B X)
    (peer : Engine V B X) where
  -- A leader whose stores are not poisoned answers a proposal with a digest of 32 bytes, its
  -- broadcast reaches a validator that has no block of its own under that digest and whose received
  -- and known blocks are not poisoned, and the validator accepts the proposal of the same leader
  -- and round. Then both know the block under that digest by equal records: number, hash, view,
  -- proposer, seconds and milliseconds. The engines of both are any that keep the timestamp they
  -- are asked for, and encoded blocks decode.
  pub deliver_agrees :
      Decodes eth
      → Honours eth engine
      → (clock : Option ℕ) (p : Propose) (a : Actor) (t : Tracker) (w : W) (d : Digest)
      → a.block_info.poisoned ≡ false
      → a.pending_blocks.poisoned ≡ false
      → (handle_propose (engine_builder eth engine) clock p a (t, w)).0 ≡ some d
      → IsB256 d.inner
      → (b : Actor) (u : Tracker) (v : V) (q : Verify) → b.block_info.poisoned ≡ false
      → b.received_blocks.poisoned ≡ false
      → get b.pending_blocks.contents d ≡ none
      → q.payload ≡ d
      → q.proposer ≡ p.leader
      → q.round ≡ p.round
      → (handle_verify
          (engine_builder eth peer)
          q
          (deliver p.leader d (handle_propose (engine_builder eth engine) clock p a (t, w)).1 b)
          (u, v)).0
        ≡ true
      → let a' = (handle_propose (engine_builder eth engine) clock p a (t, w)).1 in
        let r = handle_verify (engine_builder eth peer) q (deliver p.leader d a' b) (u, v) in
        (info : BlockInfo) × (get a'.block_info.contents d ≡ some info)
        × (get r.1.block_info.contents d ≡ some info)
  unfolding build create_engine_payload_builder
  deliver_agrees decodes honours clock p a t w d infos pending answered size b u v q b_infos
        b_received unknown same_payload same_proposer same_round accepted =
      let builder = engine_builder eth engine in
      let request = propose_request clock p (get a.block_info.contents p.parent_digest) in
      let a' = (handle_propose builder clock p a (t, w)).1 in
      let (payload, built, named) =
        handle_propose_built builder clock p a (t, w) d infos answered in
      let (sent, kept) =
        handle_propose_stores builder clock p a (t, w) payload infos pending built in
      let (meta, judged, recorded) =
        handle_verify-deliver eth peer p.leader a' b d payload.block_bytes u v q size
          (subst (λ x. get a'.pending_blocks.contents x ≡ some payload.block_bytes) (sym named)
            sent)
          b_infos b_received unknown same_payload accepted in
      let described =
        validate-build eth engine peer decodes honours t request w payload built v
          q.parent_digest.inner meta judged in
      (
        proposed_info p request payload,
        subst (λ x. get a'.block_info.contents x ≡ some (proposed_info p request payload))
            (sym named) kept,
        recorded ∙ ap some (ground (arith, described, same_proposer, same_round)),
      )
