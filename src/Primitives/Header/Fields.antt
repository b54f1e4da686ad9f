-- ===== src/Primitives/Header/Fields.antt =====
-- crates/primitives/src/header.rs: the block header, which answers as its Ethereum header does, and
-- its hash. alloy's header, the derived RLP of both and keccak256 are parameters.
use allegro.Prelude.{ℕ, Option, none, some}
use allegro.Primitives.Digest.{Bytes, B256}
use allegro.Primitives.Header.{ProposerKey, AllegroConsensusContext}

-- `AllegroHeader`, over alloy's Ethereum header.
pub record AllegroHeader (H : Type 0) : Type 0 where
  pub inner : H
  pub timestamp_millis : ℕ
  pub consensus_context : Option AllegroConsensusContext

module _ {H : Type 0} where
  -- `AllegroHeader::new`.
  abbrev pub new_header : H → ℕ → Option AllegroConsensusContext → AllegroHeader H
  new_header inner timestamp_millis consensus_context = record {
    inner = inner;
    timestamp_millis = timestamp_millis;
    consensus_context = consensus_context;
  }

  -- `impl From<Header> for AllegroHeader`.
  unfoldable pub from_header : H → AllegroHeader H
  from_header h = record { inner = h; timestamp_millis = 0; consensus_context = none }

  unfoldable pub header_epoch : AllegroHeader H → Option ℕ
  header_epoch h = elim h.consensus_context [ none ↦ none | some ctx ↦ some ctx.epoch ]

  unfoldable pub header_view : AllegroHeader H → Option ℕ
  header_view h = elim h.consensus_context [ none ↦ none | some ctx ↦ some ctx.view ]

  unfoldable pub header_proposer : AllegroHeader H → Option ProposerKey
  header_proposer h = elim h.consensus_context [ none ↦ none | some ctx ↦ some ctx.proposer ]

-- alloy's trait `BlockHeader`; addresses, blooms and nonces are bytes.
pub record BlockHeader (H : Type 0) : Type 0 where
  pub parent_hash : H → B256
  pub ommers_hash : H → B256
  pub beneficiary : H → Bytes
  pub state_root : H → B256
  pub transactions_root : H → B256
  pub receipts_root : H → B256
  pub withdrawals_root : H → Option B256
  pub logs_bloom : H → Bytes
  pub difficulty : H → ℕ
  pub number : H → ℕ
  pub gas_limit : H → ℕ
  pub gas_used : H → ℕ
  pub timestamp : H → ℕ
  pub mix_hash : H → Option B256
  pub nonce : H → Option Bytes
  pub base_fee_per_gas : H → Option ℕ
  pub blob_gas_used : H → Option ℕ
  pub excess_blob_gas : H → Option ℕ
  pub parent_beacon_block_root : H → Option B256
  pub requests_hash : H → Option B256
  pub block_access_list_hash : H → Option B256
  pub slot_number : H → Option ℕ
  pub extra_data : H → Bytes

-- `impl BlockHeader for AllegroHeader`.
unfoldable pub as_block_header : {H : Type 0} → BlockHeader H → BlockHeader (AllegroHeader H)
as_block_header eth = record {
  parent_hash = λ h. eth.parent_hash h.inner;
  ommers_hash = λ h. eth.ommers_hash h.inner;
  beneficiary = λ h. eth.beneficiary h.inner;
  state_root = λ h. eth.state_root h.inner;
  transactions_root = λ h. eth.transactions_root h.inner;
  receipts_root = λ h. eth.receipts_root h.inner;
  withdrawals_root = λ h. eth.withdrawals_root h.inner;
  logs_bloom = λ h. eth.logs_bloom h.inner;
  difficulty = λ h. eth.difficulty h.inner;
  number = λ h. eth.number h.inner;
  gas_limit = λ h. eth.gas_limit h.inner;
  gas_used = λ h. eth.gas_used h.inner;
  timestamp = λ h. eth.timestamp h.inner;
  mix_hash = λ h. eth.mix_hash h.inner;
  nonce = λ h. eth.nonce h.inner;
  base_fee_per_gas = λ h. eth.base_fee_per_gas h.inner;
  blob_gas_used = λ h. eth.blob_gas_used h.inner;
  excess_blob_gas = λ h. eth.excess_blob_gas h.inner;
  parent_beacon_block_root = λ h. eth.parent_beacon_block_root h.inner;
  requests_hash = λ h. eth.requests_hash h.inner;
  block_access_list_hash = λ h. eth.block_access_list_hash h.inner;
  slot_number = λ h. eth.slot_number h.inner;
  extra_data = λ h. eth.extra_data h.inner;
}

-- `Sealable::hash_slow`.
unfoldable pub hash_slow :
    {H : Type 0} → (Bytes → B256) → (AllegroHeader H → Bytes) → AllegroHeader H → B256
hash_slow keccak256 encode h = keccak256 (encode h)
