-- ===== src/Network/Forgery.antt =====
-- What the digest of a verification is worth: the validator compares it with no hash.
use allegro.Prelude.{◌/◌, ◌≤◌, ◌≡◌, refl, true, false, none, some, ok, arith, ==_refl, ap, ◌∙◌}
use allegro.Prelude.Words.{u64_max}
use allegro.Prelude.Dict.{get, get-insert_self}
use allegro.Primitives.Digest.{IsB256, Digest, PublicKey, digest_eq, public_key_eq}
use allegro.Consensus.Validators.{Address, set_lookup}
use allegro.Consensus.Application.{Actor, Verify, verified_info, handle_verify, find_block}
use allegro.Consensus.Application.Verifying.{Accepts, handle_verify_iff, handle_verify_records}
use allegro.Consensus.Relay.{wire, message, receive}
use allegro.Consensus.Relay.Wire.{receive-wire_contents, receive_keeps_lock}
use allegro.Node.Reth.{Engine, EthFormat, Decodes, valid}
use allegro.Node.Builder.{Tracker, meta_of, create_engine_payload_builder}
use allegro.Network.{engine_builder}
use allegro.Network.Acceptance.{validate-passes}
use allegro.Network.Agreement.{find_block-received}

whole_meta :
    {B X : Type 0} (eth : EthFormat B X) (block : B)
    → eth.header_timestamp block ≤ u64_max / 1000
    → (meta_of eth block).timestamp_millis / 1000 ≡ (meta_of eth block).timestamp
unfolding meta_of
whole_meta eth block fits = ground arith

-- A validator after it has received some bytes.
abbrev pub supply : {B X : Type 0} → EthFormat B X → PublicKey → Digest → B → Actor → Actor
supply eth from d block s =
    let (blocks, metrics) =
      receive (message from (wire d (eth.encode block))) s.received_blocks s.metrics in
    record s { received_blocks = blocks; metrics = metrics }

module _ {V B X : Type 0} (eth : EthFormat B X) (peer : Engine V B X) where
  forged_accepts :
      Decodes eth
      → (block : B) (d : Digest) (from : PublicKey) (s : Actor) (u : Tracker) (v : V) (q : Verify)
        (address : Address)
      → IsB256 d.inner
      → eth.header_timestamp block ≤ u64_max / 1000
      → (peer.new_payload (eth.block_to_payload block) v).0 ≡ ok valid
      → s.pending_blocks.poisoned ≡ false
      → s.received_blocks.poisoned ≡ false
      → get s.pending_blocks.contents d ≡ none
      → set_lookup s.validators q.proposer ≡ some address
      → q.payload ≡ d
      → (a : Accepts (engine_builder eth peer) q (supply eth from d block s) (u, v)) × (a.meta
          ≡ meta_of eth block)
  unfolding create_engine_payload_builder
  forged_accepts decodes block d from s u v q address size fits judged pending received unknown
        member same =
      let m = message from (wire d (eth.encode block)) in
      let stored =
        receive-wire_contents from d (eth.encode block) s.received_blocks s.metrics size received in
      (
        record {
          address = address;
          known = member;
          healthy = pending;
          bytes = eth.encode block;
          found =
              ap (λ x. find_block x (supply eth from d block s)) same
              ∙ find_block-received d (supply eth from d block s) (eth.encode block) unknown
                  (receive_keeps_lock m s.received_blocks s.metrics ∙ received)
                  (ap (λ c. get c d) stored
                    ∙ get-insert_self s.received_blocks.contents d (eth.encode block));
          meta = meta_of eth block;
          judged =
              validate-passes eth peer block
                (record { block_bytes = eth.encode block; parent_hash = q.parent_digest.inner }) v
                (decodes.decode-encode block) judged;
          timed = whole_meta eth block fits;
        },
        refl,
      )

  -- The digest of a proposal is not compared with the hash of its block: for every block that the
  -- engine judges valid, with seconds whose milliseconds fit in 64 bits, and every digest of 32
  -- bytes, a validator with unpoisoned stores that has no block of its own under the digest, and
  -- that receives the block's bytes under it from anyone, accepts a proposal of that digest whose
  -- proposer is in its set, and then knows the block, by its own hash, under that digest. Encoded
  -- blocks decode.
  pub forged_digest_accepted :
      Decodes eth
      → (block : B) (d : Digest) (from : PublicKey) (s : Actor) (u : Tracker) (v : V) (q : Verify)
        (address : Address)
      → IsB256 d.inner
      → eth.header_timestamp block ≤ u64_max / 1000
      → (peer.new_payload (eth.block_to_payload block) v).0 ≡ ok valid
      → s.pending_blocks.poisoned ≡ false
      → s.received_blocks.poisoned ≡ false
      → s.block_info.poisoned ≡ false
      → get s.pending_blocks.contents d ≡ none
      → set_lookup s.validators q.proposer ≡ some address
      → q.payload ≡ d
      → let r = handle_verify (engine_builder eth peer) q (supply eth from d block s) (u, v) in
        (r.0 ≡ true) × (get r.1.block_info.contents d ≡ some (verified_info q (meta_of eth block)))
  forged_digest_accepted decodes block d from s u v q address size fits judged pending received
        infos unknown member same =
      let (a, described) =
        forged_accepts decodes block d from s u v q address size fits judged pending received
          unknown member same in
      let builder = engine_builder eth peer in
      (
        (handle_verify_iff builder q (supply eth from d block s) (u, v)).1 a,
        ground (
          arith,
          handle_verify_records builder q (supply eth from d block s) (u, v) a infos d,
          described,
          same,
          ==_refl d,
        ),
      )
