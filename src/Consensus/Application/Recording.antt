-- ===== src/Consensus/Application/Recording.antt =====
-- What a verification answers and records, on every branch.
use allegro.Prelude.{
  ◌/◌, ◌≡◌, Bool, true, false, none, some, ok, arith, ◌==◌, if◌then◌else◌, inl, inr, Bool-cases,
  Option-cases, ap,
}
use allegro.Prelude.Dict.{get}
use allegro.Primitives.Digest.{Bytes, Digest, digest_eq, public_key_eq}
use allegro.Consensus.Validators.{Address, set_lookup}
use allegro.Consensus.Executor.{BlockMeta, valid, PayloadBuilder}
use allegro.Consensus.Application.{Actor, Verify, handle_verify, find_block}
use allegro.Consensus.Application.Changes.{SameStores}
use allegro.Consensus.Application.Verifying.{
  Accepts, handle_verify_sound, handle_verify_complete, handle_verify_records,
  handle_verify_refused,
}

-- The bytes of a digest: of an own block, or, if there is none, of a received block, whose store is
-- not poisoned.
pub data IsFound (d : Digest) (s : Actor) (bytes : Bytes) : Type 0 where
  own : get s.pending_blocks.contents d ≡ some bytes → IsFound d s bytes
  received :
      get s.pending_blocks.contents d ≡ none
      → s.received_blocks.poisoned ≡ false
      → get s.received_blocks.contents d ≡ some bytes
      → IsFound d s bytes

find_block-IsFound :
    (d : Digest) (s : Actor) (bytes : Bytes) → find_block d s ≡ some bytes → IsFound d s bytes
unfolding find_block
find_block-IsFound d s bytes h = elim (Option-cases (get s.pending_blocks.contents d)) [
  | inr (mine, known) ↦ own (ground (arith, known))
  | inl unknown ↦ elim (Bool-cases s.received_blocks.poisoned) [
    | inl poisoned ↦ absurd (ground arith)
    | inr healthy ↦ received unknown healthy (ground arith)
  ]
]

find_block-found :
    (d : Digest) (s : Actor) (bytes : Bytes) → IsFound d s bytes → find_block d s ≡ some bytes
unfolding find_block
find_block-found d s bytes (own known) = ground arith
find_block-found d s bytes (received unknown healthy known) = ground arith

module _ {W : Type 0} (builder : PayloadBuilder W) where
  -- What acceptance needs: a proposer of the set, unpoisoned own blocks, bytes under the digest, and a
  -- verdict of validity with its milliseconds in its seconds.
  pub record Acceptable (msg : Verify) (s : Actor) (w : W) : Type 0 where
    pub address : Address
    pub known : set_lookup s.validators msg.proposer ≡ some address
    pub healthy : s.pending_blocks.poisoned ≡ false
    pub bytes : Bytes
    pub found : IsFound msg.payload s bytes
    pub meta : BlockMeta
    pub judged : (builder.validate_block bytes msg.parent_digest.inner w).0 ≡ ok (valid meta)
    pub timed : meta.timestamp_millis / 1000 ≡ meta.timestamp

  -- An accepted proposal is recorded by the verdict; nothing else of the known blocks changes.
  pub record Accepted (msg : Verify) (s : Actor) (w : W) (s' : Actor) : Type 0 where
    pub acceptable : Acceptable msg s w
    pub recorded :
        s.block_info.poisoned ≡ false
        → (j : Digest)
        → get s'.block_info.contents j ≡ (
            if msg.payload == j
            then some (record {
              number = acceptable.meta.number;
              hash = acceptable.meta.hash;
              view = msg.round.view;
              proposer = msg.proposer;
              timestamp = acceptable.meta.timestamp;
              timestamp_millis = acceptable.meta.timestamp_millis;
            })
            else get s.block_info.contents j)

  -- How a verification ends.
  pub data Verification (msg : Verify) (s : Actor) (w : W) (r : Bool × Actor × W) : Type 0 where
    accepted : r.0 ≡ true → Accepted msg s w r.1 → Verification msg s w r
    refused : r.0 ≡ false → ¬ Acceptable msg s w → SameStores s r.1 → Verification msg s w r

  Acceptable-Accepts :
      (msg : Verify) (s : Actor) (w : W) → Acceptable msg s w → Accepts builder msg s w
  Acceptable-Accepts msg s w a = record {
    address = a.address;
    known = a.known;
    healthy = a.healthy;
    bytes = a.bytes;
    found = find_block-found msg.payload s a.bytes a.found;
    meta = a.meta;
    judged = a.judged;
    timed = a.timed;
  }

  refused-SameStores :
      (msg : Verify) (s : Actor) (w : W)
      → (handle_verify builder msg s w).0 ≡ false
      → SameStores s (handle_verify builder msg s w).1
  refused-SameStores msg s w h =
      let same = handle_verify_refused builder msg s w h in
      record {
        same_validators = ap (λ a. a.validators) same;
        same_info = ap (λ a. a.block_info) same;
        same_pending = ap (λ a. a.pending_blocks) same;
        same_received = ap (λ a. a.received_blocks) same;
        same_proposals = ap (λ a. a.proposals) same;
      }

  -- A verification ends in one of two ways. It is accepted, and then the proposer is in the set,
  -- the own blocks are not poisoned, the bytes stand under the payload's digest among the own
  -- blocks or, if not there, among the received ones, whose store is not poisoned, and the
  -- execution layer judged them valid with milliseconds in the seconds that it reports; exactly the
  -- entry of that digest among the known blocks, if they are not poisoned, is replaced, by the
  -- number, hash, seconds and milliseconds of the verdict, the view of the round and the proposer.
  -- Or it is refused, and then not all of these hold, and the stores are as they were.
  pub handle_verify-Verification :
      (msg : Verify) (s : Actor) (w : W) → Verification msg s w (handle_verify builder msg s w)
  handle_verify-Verification msg s w = elim (Bool-cases (handle_verify builder msg s w).0) [
    | inl holds ↦
        let a = handle_verify_sound builder msg s w holds in
        accepted holds (record {
          acceptable = record {
            address = a.address;
            known = a.known;
            healthy = a.healthy;
            bytes = a.bytes;
            found = find_block-IsFound msg.payload s a.bytes a.found;
            meta = a.meta;
            judged = a.judged;
            timed = a.timed;
          };
          recorded = λ healthy j. handle_verify_records builder msg s w a healthy j;
        })
    | inr fails ↦
        refused fails
          (λ a.
            let holds = handle_verify_complete builder msg s w (Acceptable-Accepts msg s w a) in cc)
          (refused-SameStores msg s w fails)
  ]
