-- ===== src/Consensus/Application/Proposing.antt =====
-- Proposing: the times that are asked for, and what a proposal leaves in the stores.
use allegro.Prelude.{
  ℕ, ◌/◌, ◌≤◌, ◌<◌, ◌≡◌, refl, true, false, Option, none, some, Result, ok, err, u64_max, arith,
  ◌==◌, if◌then◌else◌, ◌⊎◌, inl, inr, Bool-cases,
}
use allegro.Prelude.Dict.{get, get-insert, get-insert_self}
use Prim.Native.String.{String}
use allegro.Primitives.Digest.{Digest, digest_eq, zero_hash}
use allegro.Consensus.Executor.{BuiltPayload, BuildPayloadRequest, PayloadBuilder}
use allegro.Consensus.Application.{
  Actor, Propose, BlockInfo, now_millis, propose_request, proposed_info, built_digest,
  count_proposal, after_build, handle_propose,
}
use allegro.Consensus.Application.Changes.{SameStores}

-- What is kept of each block: whole seconds of its milliseconds, in 64 bits.
pub record IsTimed (info : BlockInfo) : Type 0 where
  pub whole_seconds : info.timestamp_millis / 1000 ≡ info.timestamp
  pub in_range : info.timestamp_millis ≤ u64_max

-- On a known parent with whole seconds, the milliseconds that a proposal asks for are not before
-- the clock, fit in 64 bits, are in the seconds that it asks for, which are not before the
-- parent's, and are after the parent's milliseconds unless they are the largest 64-bit number.
pub propose_request_times :
    (clock : Option ℕ) (msg : Propose) (parent : BlockInfo)
    → IsTimed parent
    → let r = propose_request clock msg (some parent) in
      (now_millis clock ≤ r.timestamp_millis)
      × (r.timestamp_millis ≤ u64_max)
      × (r.timestamp_millis / 1000 ≡ r.timestamp)
      × (parent.timestamp ≤ r.timestamp)
      × ((parent.timestamp_millis < r.timestamp_millis) ⊎ (r.timestamp_millis ≡ u64_max))
unfolding propose_request
propose_request_times clock msg parent h = ground arith

-- What is asked of the payload builder for a proposal; an unknown parent is number 0 and no hash.
pub record Asks (msg : Propose) (s : Actor) (request : BuildPayloadRequest) : Type 0 where
  pub parent :
      (info : BlockInfo)
      → get s.block_info.contents msg.parent_digest ≡ some info
      → (request.parent_hash ≡ info.hash) × (request.parent_number ≡ info.number)
  pub no_parent :
      get s.block_info.contents msg.parent_digest ≡ none
      → (request.parent_hash ≡ zero_hash) × (request.parent_number ≡ 0)
  pub same_parent :
      (request.parent_digest ≡ msg.parent_digest) × (request.parent_view ≡ msg.parent_view)
  pub same_round : (request.epoch ≡ msg.round.epoch) × (request.view ≡ msg.round.view)
  pub same_proposer : request.proposer ≡ msg.leader.key_bytes
  pub whole_seconds : request.timestamp ≡ request.timestamp_millis / 1000

pub propose_request-Asks :
    (clock : Option ℕ) (msg : Propose) (s : Actor)
    → Asks msg s (propose_request clock msg (get s.block_info.contents msg.parent_digest))
unfolding propose_request
propose_request-Asks clock msg s = record {
  parent = λ info known. (ground (arith, known), ground (arith, known));
  no_parent = λ unknown. (ground (arith, unknown), ground (arith, unknown));
  same_parent = (refl, refl);
  same_round = (refl, refl);
  same_proposer = refl;
  whole_seconds = refl;
}

module _ {W : Type 0} (builder : PayloadBuilder W) where
  -- A proposal that the builder built: what is answered, stored and recorded.
  pub record Answers (msg : Propose) (s : Actor) (w : W) (r : Option Digest × Actor × W)
      : Type 0 where
    pub request : BuildPayloadRequest
    pub asks : Asks msg s request
    pub payload : BuiltPayload
    pub built : builder.build_payload request w ≡ (ok payload, r.2)
    pub answer : r.0 ≡ some (record { inner = payload.block_hash })
    pub stored :
        s.pending_blocks.poisoned ≡ false
        → get r.1.pending_blocks.contents (record { inner = payload.block_hash })
          ≡ some payload.block_bytes
    pub recorded :
        (j : Digest)
        → get r.1.block_info.contents j ≡ (
            if record { inner = payload.block_hash } == j
            then some (record {
              number = payload.block_number;
              hash = payload.block_hash;
              view = msg.round.view;
              proposer = msg.leader;
              timestamp = request.timestamp;
              timestamp_millis = payload.timestamp_millis;
            })
            else get s.block_info.contents j)

  -- How a proposal ends: without an answer, on poisoned known blocks or an error of the builder, or
  -- with one.
  pub data Proposal (msg : Propose) (s : Actor) (w : W) (r : Option Digest × Actor × W)
      : Type 0 where
    poisoned :
        s.block_info.poisoned ≡ true → r.0 ≡ none → SameStores s r.1 → r.2 ≡ w → Proposal msg s w r
    failed :
        (request : BuildPayloadRequest) (e : String)
        → s.block_info.poisoned ≡ false
        → Asks msg s request
        → builder.build_payload request w ≡ (err e, r.2)
        → r.0 ≡ none
        → SameStores s r.1
        → Proposal msg s w r
    answered : s.block_info.poisoned ≡ false → Answers msg s w r → Proposal msg s w r

  after_build-Proposal :
      (clock : Option ℕ) (msg : Propose) (s : Actor) (w w' : W) (built : Result BuiltPayload String)
      → s.block_info.poisoned ≡ false
      → let request = propose_request clock msg (get s.block_info.contents msg.parent_digest) in
        builder.build_payload request w ≡ (built, w')
        → let (reply, s') = after_build msg request built (count_proposal s) in
          Proposal msg s w (reply, s', w')
  unfolding after_build
  after_build-Proposal clock msg s w w' (err e) healthy h =
      failed (propose_request clock msg (get s.block_info.contents msg.parent_digest)) e healthy
        (propose_request-Asks clock msg s) h refl (ground arith)
  after_build-Proposal clock msg s w w' (ok payload) healthy h =
      let d = built_digest payload in
      answered healthy (record {
        request = propose_request clock msg (get s.block_info.contents msg.parent_digest);
        asks = propose_request-Asks clock msg s;
        payload = payload;
        built = h;
        answer = refl;
        stored =
            λ own. ground (arith, get-insert_self s.pending_blocks.contents d payload.block_bytes);
        recorded = λ j. ground (
          arith,
          get-insert s.block_info.contents d j (
              proposed_info msg
                (propose_request clock msg (get s.block_info.contents msg.parent_digest)) payload),
        );
      })

  -- A proposal ends in one of three ways. On poisoned known blocks it is not answered, and the
  -- stores and the execution layer are as they were. Else the builder is asked for a block on the
  -- number and hash of the known parent, or on number 0 and the zero hash if the parent is unknown,
  -- with the parent's digest and view, the epoch and view of the round, the leader's key, and the
  -- whole seconds of its milliseconds. If the builder fails, there is no answer and the stores are
  -- as they were. If it returns a payload, the answer is the digest of its hash; its bytes are
  -- among the own blocks under that digest, unless those are poisoned; exactly the entry of that
  -- digest among the known blocks is replaced, by the payload's number, hash and milliseconds, the
  -- seconds that were asked for, the view and the leader; and the execution layer is as the builder
  -- left it.
  pub handle_propose-Proposal :
      (clock : Option ℕ) (msg : Propose) (s : Actor) (w : W)
      → Proposal msg s w (handle_propose builder clock msg s w)
  unfolding handle_propose
  handle_propose-Proposal clock msg s w = elim (Bool-cases s.block_info.poisoned) [
    | inl yes_poisoned ↦ simp yes_poisoned (poisoned yes_poisoned refl (ground arith) refl)
    | inr healthy ↦
        let request = propose_request clock msg (get s.block_info.contents msg.parent_digest) in
        simp healthy (
          after_build-Proposal clock msg s w (builder.build_payload request w).1
            (builder.build_payload request w).0 healthy refl)
  ]

  -- A proposal that is not answered leaves the known blocks, the own blocks, the received blocks
  -- and the proposals as they were.
  pub handle_propose_silent :
      (clock : Option ℕ) (msg : Propose) (s : Actor) (w : W)
      → (handle_propose builder clock msg s w).0 ≡ none
      → let s' = (handle_propose builder clock msg s w).1 in
        (s'.block_info ≡ s.block_info)
        × (s'.pending_blocks ≡ s.pending_blocks)
        × (s'.received_blocks ≡ s.received_blocks)
        × (s'.proposals ≡ s.proposals)
  unfolding handle_propose
  handle_propose_silent clock msg s w h = ground arith
