-- ===== src/Network/System/Binding.antt =====
-- What a digest stands for on one node: the block whose hash it names.
use allegro.Prelude.{◌≡◌, refl, sym, some, ok, arith, ◌⊎◌, inl, inr, Option-cases, saturating_mul}
use allegro.Prelude.Dict.{get, insert, Everywhere, Everywhere-insert}
use allegro.Primitives.Digest.{Bytes, B256, Digest, empty_digest, digest_eq}
use allegro.Prelude.Lock.{write_guard}
use allegro.Consensus.Executor.{BuiltPayload, BuildPayloadRequest}
use allegro.Consensus.Application.{
  Actor, BlockInfo, Propose, Verify, find_block, proposed_info, verified_info, built_digest,
  after_build,
}
use allegro.Consensus.Application.Changes.{SameStores}
use allegro.Consensus.Application.Running.{write_guard-keeps}
use allegro.Node.Reth.{Engine, EthFormat, Decodes, Jobs}
use allegro.Node.Builder.{payload_of, meta_of}
use allegro.Node.Builder.Agreement.{Builds}
use allegro.Network.Waiting.Keeps.{IsKept}

-- The bytes are those of a block whose hash is the digest.
pub record Names {B X : Type 0} (eth : EthFormat B X) (d : Digest) (bytes : Bytes) : Type 0 where
  pub block : B
  pub encoded : bytes ≡ eth.encode block
  pub named : d.inner ≡ eth.header_hash block

-- The bytes are of no block, or of a block whose hash is the digest.
pub record Stands {B X : Type 0} (eth : EthFormat B X) (d : Digest) (bytes : Bytes) : Type 0 where
  pub names : (block : B) → eth.decode bytes ≡ ok block → d.inner ≡ eth.header_hash block

pub Names-Stands :
    {B X : Type 0} (eth : EthFormat B X) (d : Digest) (bytes : Bytes)
    → Decodes eth
    → Names eth d bytes
    → Stands eth d bytes
Names-Stands eth d bytes decodes n = record {
  names =
      λ block decoded. ground (arith, decoded, n.encoded, n.named, decodes.decode-encode n.block);
}

-- The record is that of a block whose hash is the digest.
pub record Describes {B X : Type 0} (eth : EthFormat B X) (d : Digest) (info : BlockInfo)
    : Type 0 where
  pub block : B
  pub named : d.inner ≡ eth.header_hash block
  pub hash_eq : info.hash ≡ eth.header_hash block
  pub number_eq : info.number ≡ eth.header_number block
  pub timestamp_eq : info.timestamp ≡ eth.header_timestamp block
  pub millis_eq : info.timestamp_millis ≡ saturating_mul (eth.header_timestamp block) 1000

-- The genesis block is known under the empty digest.
abbrev pub IsGenesis : B256 → Digest → BlockInfo → Type 0
IsGenesis genesis_hash d info = (d ≡ empty_digest) × (info.hash ≡ genesis_hash) × (info.number ≡ 0)

abbrev pub GenesisOr : {B X : Type 0} → EthFormat B X → B256 → Digest → BlockInfo → Type 0
GenesisOr eth genesis_hash d info = IsGenesis genesis_hash d info ⊎ Describes eth d info

-- Nothing more is claimed of the request of a proposal.
abbrev pub AnyRequest : Propose → BuildPayloadRequest → Type 0
AnyRequest p request = Unit {0}

-- A block in hand of a verification has the hash that its digest names.
abbrev pub NamedBy : {B X : Type 0} → EthFormat B X → Verify → B → Type 0
NamedBy eth q block = q.payload.inner ≡ eth.header_hash block

pub record IsBound {B X : Type 0} (eth : EthFormat B X) (genesis_hash : B256) (a : Actor)
    : Type 0 where
  pub pending : Everywhere (Names eth) a.pending_blocks.contents
  pub received : Everywhere (Stands eth) a.received_blocks.contents
  pub infos : Everywhere (GenesisOr eth genesis_hash) a.block_info.contents

-- The record of a built block, and of a judged one.
pub proposed-Describes :
    {B X : Type 0} (eth : EthFormat B X) (p : Propose) (request : BuildPayloadRequest)
    (payload : BuiltPayload)
    → Builds eth request payload
    → Describes eth (built_digest payload) (proposed_info p request payload)
unfolding payload_of
proposed-Describes eth p request payload b =
    let named : payload.block_hash ≡ eth.header_hash b.block = ground (arith, b.payload_eq) in
    record {
      block = b.block;
      named = named;
      hash_eq = named;
      number_eq = ground (arith, b.payload_eq);
      timestamp_eq = sym b.on_time;
      millis_eq = ground (arith, b.payload_eq);
    }

pub verified-Describes :
    {B X : Type 0} (eth : EthFormat B X) (q : Verify) (block : B)
    → NamedBy eth q block
    → Describes eth q.payload (verified_info q (meta_of eth block))
unfolding meta_of
verified-Describes eth q block named = record {
  block = block;
  named = named;
  hash_eq = refl;
  number_eq = refl;
  timestamp_eq = refl;
  millis_eq = refl;
}

module _ {W B X : Type 0} (eth : EthFormat B X) (engine : Engine W B X) (genesis_hash : B256) where
  find_block-Stands :
      Decodes eth
      → (d : Digest) (a : Actor) (bytes : Bytes) → IsBound eth genesis_hash a
      → find_block d a ≡ some bytes
      → Stands eth d bytes
  unfolding find_block
  find_block-Stands decodes d a bytes h found =
      elim (Option-cases (get a.pending_blocks.contents d)) [
        | inr (own, e) ↦ Names-Stands eth d bytes decodes (h.pending.at d bytes (ground arith))
        | inl e ↦ h.received.at d bytes (ground arith)
      ]

  pub SameStores-IsBound :
      (a a' : Actor) → SameStores a a' → IsBound eth genesis_hash a → IsBound eth genesis_hash a'
  SameStores-IsBound a a' k h = record {
    pending = rw k.same_pending h.pending;
    received = rw k.same_received h.received;
    infos = rw k.same_info h.infos;
  }

  after_build-IsBound :
      (p : Propose) (request : BuildPayloadRequest) (payload : BuiltPayload) (a : Actor)
      → Builds eth request payload
      → IsBound eth genesis_hash a
      → IsBound eth genesis_hash (after_build p request (ok payload) a).1
  unfolding after_build payload_of
  after_build-IsBound p request payload a b h =
      let d = built_digest payload in
      let named : d.inner ≡ eth.header_hash b.block = ground (arith, b.payload_eq) in
      record {
        pending =
            write_guard-keeps (Everywhere (Names eth))
              (λ blocks. insert blocks d payload.block_bytes) a.pending_blocks
              (λ e.
                Everywhere-insert (Names eth) a.pending_blocks.contents d payload.block_bytes e
                  (record {
                    block = b.block;
                    encoded = ground (arith, b.payload_eq);
                    named = named;
                  }))
              h.pending;
        received = h.received;
        infos =
            write_guard-keeps (Everywhere (GenesisOr eth genesis_hash))
              (λ infos. insert infos d (proposed_info p request payload)) a.block_info
              (λ e.
                Everywhere-insert (GenesisOr eth genesis_hash) a.block_info.contents d
                  (proposed_info p request payload) e
                  (inr (proposed-Describes eth p request payload b)))
              h.infos;
      }

  recorded-IsBound :
      (q : Verify) (block : B) (a : Actor)
      → q.payload.inner ≡ eth.header_hash block
      → IsBound eth genesis_hash a
      → IsBound eth genesis_hash (record a {
        block_info =
            write_guard
              (λ infos. insert infos q.payload (verified_info q (meta_of eth block)))
              a.block_info;
      })
  recorded-IsBound q block a named h = record {
    pending = h.pending;
    received = h.received;
    infos =
        write_guard-keeps (Everywhere (GenesisOr eth genesis_hash))
          (λ infos. insert infos q.payload (verified_info q (meta_of eth block))) a.block_info
          (λ e.
            Everywhere-insert (GenesisOr eth genesis_hash) a.block_info.contents q.payload
              (verified_info q (meta_of eth block)) e (inr (verified-Describes eth q block named)))
          h.infos;
  }

  pub IsBound-IsKept :
      (jobs : Jobs eth engine)
      → IsKept eth engine jobs AnyRequest (NamedBy eth) (IsBound eth genesis_hash)
  IsBound-IsKept jobs = record {
    same = SameStores-IsBound;
    built = λ p request payload a whole b h. after_build-IsBound p request payload a b h;
    judged = λ q block a named timed h. recorded-IsBound q block a named h;
  }

  pub found-NamedBy :
      Decodes eth
      → (a : Actor) → IsBound eth genesis_hash a
      → (q : Verify) (bytes : Bytes) (block : B) → find_block q.payload a ≡ some bytes
      → eth.decode bytes ≡ ok block
      → NamedBy eth q block
  found-NamedBy decodes a h q bytes block found decoded =
      (find_block-Stands decodes q.payload a bytes h found).names block decoded
