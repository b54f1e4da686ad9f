-- ===== src/Network/Acceptance.antt =====
-- A validator accepts what an honest leader proposes, if its execution layer does.
use allegro.Prelude.{ℕ, ◌/◌, ◌≡◌, sym, ap, ◌∙◌, subst, true, false, Option, none, some, ok, arith}
use allegro.Prelude.Dict.{get}
use allegro.Primitives.Digest.{IsB256, Digest, digest_eq, public_key_eq}
use allegro.Consensus.Validators.{Address, set_lookup}
use allegro.Consensus.Executor.{ValidateBlockRequest, ValidationResult}
use allegro.Consensus.Executor
use allegro.Consensus.Application.{
  BlockInfo, Actor, Propose, Verify, propose_request, handle_propose, handle_verify, find_block,
}
use allegro.Consensus.Application.Verifying.{handle_verify_iff}
use allegro.Consensus.Application.Changes.{propose_request_in_range}
use allegro.Node.Reth.{Engine, EthFormat, Decodes, Honours, valid}
use allegro.Node.Builder.{
  Tracker, validate, judge, meta_of, payload_of, create_engine_payload_builder,
}
use allegro.Node.Builder.Agreement.{build-Builds}
use allegro.Network.{engine_builder, deliver}
use allegro.Network.Agreement.{
  handle_propose_built, handle_propose_stores, find_block-deliver, deliver_record,
}

module _ {V B X : Type 0} (eth : EthFormat B X) (peer : Engine V B X) where
  -- Bytes that decode to a block which the engine judges valid.
  pub validate-passes :
      (block : B) (req : ValidateBlockRequest) (v : V)
      → eth.decode req.block_bytes ≡ ok block
      → (peer.new_payload (eth.block_to_payload block) v).0 ≡ ok valid
      → (validate eth peer req v).0 ≡ ok (Executor.valid (meta_of eth block))
  unfolding validate judge
  validate-passes block req v decoded passed = rw (validate, decoded) (ground (arith, passed))

-- The milliseconds of a block that was asked for are in its seconds.
timed_meta :
    {B X : Type 0} (eth : EthFormat B X) (block : B) (clock : Option ℕ) (p : Propose)
    (parent : Option BlockInfo)
    → eth.header_timestamp block ≡ (propose_request clock p parent).timestamp
    → (meta_of eth block).timestamp_millis / 1000 ≡ (meta_of eth block).timestamp
unfolding meta_of propose_request
timed_meta eth block clock p parent on_time =
    ground (arith, propose_request_in_range clock p parent)

module _ {V W B X : Type 0} (eth : EthFormat B X) (engine : Engine W B X)
    (peer : Engine V B X) where
  -- A leader whose stores are not poisoned answers a proposal with a digest of 32 bytes, and its
  -- broadcast reaches a validator that has no block of its own under that digest, whose own and
  -- received blocks are not poisoned, and to whose set the leader belongs. If the validator's
  -- engine judges every block of that hash valid, the validator accepts the proposal of that leader
  -- and digest. The leader's engine keeps the timestamp it is asked for, and encoded blocks decode.
  pub honest_proposal_accepted :
      Decodes eth
      → Honours eth engine
      → (clock : Option ℕ) (p : Propose) (a : Actor) (t : Tracker) (w : W) (d : Digest)
      → a.block_info.poisoned ≡ false
      → a.pending_blocks.poisoned ≡ false
      → (handle_propose (engine_builder eth engine) clock p a (t, w)).0 ≡ some d
      → IsB256 d.inner
      → (b : Actor) (u : Tracker) (v : V) (q : Verify) (address : Address)
      → b.pending_blocks.poisoned ≡ false
      → b.received_blocks.poisoned ≡ false
      → get b.pending_blocks.contents d ≡ none
      → set_lookup b.validators p.leader ≡ some address
      → q.payload ≡ d
      → q.proposer ≡ p.leader
      → ((block : B)
          → eth.header_hash block ≡ d.inner
          → (peer.new_payload (eth.block_to_payload block) v).0 ≡ ok valid)
      → (handle_verify
          (engine_builder eth peer)
          q
          (deliver p.leader d (handle_propose (engine_builder eth engine) clock p a (t, w)).1 b)
          (u, v)).0
        ≡ true
  unfolding create_engine_payload_builder payload_of
  honest_proposal_accepted decodes honours clock p a t w d infos pending answered size b u v q
        address b_pending b_received unknown member same_payload same_proposer judges =
      let builder = engine_builder eth engine in
      let parent = get a.block_info.contents p.parent_digest in
      let a' = (handle_propose builder clock p a (t, w)).1 in
      let (payload, built, named) =
        handle_propose_built builder clock p a (t, w) d infos answered in
      let (sent, kept) =
        handle_propose_stores builder clock p a (t, w) payload infos pending built in
      let made =
        build-Builds eth engine honours t (propose_request clock p parent) w payload
          (ground (arith, built)) in
      let sent_d : get a'.pending_blocks.contents d ≡ some payload.block_bytes =
        subst (λ x. get a'.pending_blocks.contents x ≡ some payload.block_bytes) (sym named) sent in
      let b1 = deliver p.leader d a' b in
      let same = deliver_record p.leader d a' b payload.block_bytes sent_d in
      let decoded : eth.decode payload.block_bytes ≡ ok made.block =
        ap (λ x. eth.decode x.block_bytes) made.payload_eq ∙ decodes.decode-encode made.block in
      (handle_verify_iff (engine_builder eth peer) q b1 (u, v)).1 (record {
        address = address;
        known =
            ap (λ k. set_lookup b1.validators k) same_proposer
            ∙ ap (λ c. set_lookup c.validators p.leader) same
            ∙ member;
        healthy = ap (λ c. c.pending_blocks.poisoned) same ∙ b_pending;
        bytes = payload.block_bytes;
        found =
            ap (λ x. find_block x b1) same_payload
            ∙ find_block-deliver p.leader d a' b payload.block_bytes size sent_d b_received unknown;
        meta = meta_of eth made.block;
        judged =
            validate-passes eth peer made.block
              (record { block_bytes = payload.block_bytes; parent_hash = q.parent_digest.inner }) v
              decoded (judges made.block (ground (arith, made.payload_eq, named)));
        timed = timed_meta eth made.block clock p parent made.on_time;
      })
