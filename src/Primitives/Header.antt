-- ===== src/Primitives/Header.antt =====
-- crates/primitives/src/header.rs: the proposer key and the consensus context of a block header,
-- with their RLP form. The RLP of integers, arrays and headers is alloy's, a parameter.
pub mod RoundTrip
pub mod Fields
pub mod Proposer
use allegro.Prelude.{
  ℕ, ◌+◌, ◌≤◌, ◌≡◌, Bool, true, false, List, ◌++◌, Option, some, none, Result, ok, err, length, leb,
  u64_max, if◌then◌else◌, and_then,
}
use allegro.Primitives.Digest.{Bytes, B256, PublicKey}

pub record ProposerKey : Type 0 where
  pub raw : Bytes

-- `from_bytes`, which is also `From<[u8; 32]>`, and `as_bytes`.
abbrev pub key_from_bytes : Bytes → ProposerKey
key_from_bytes bytes = record { raw = bytes }

abbrev pub key_as_bytes : ProposerKey → Bytes
key_as_bytes k = k.raw

pub data RlpError : Type 0 where
  unexpected_string : RlpError
  malformed : RlpError

-- `alloy_rlp::Header`.
pub record RlpHeader : Type 0 where
  pub list : Bool
  pub payload_length : ℕ

-- What the source calls of alloy_rlp. A decoder returns the value and the rest of the input.
pub record Rlp : Type 0 where
  pub encode_u64 : ℕ → Bytes
  pub decode_u64 : Bytes → Result (ℕ × Bytes) RlpError
  pub encode_array : Bytes → Bytes
  pub decode_array : Bytes → Result (Bytes × Bytes) RlpError
  pub encode_slice : Bytes → Bytes
  pub encode_header : RlpHeader → Bytes
  pub decode_header : Bytes → Result (RlpHeader × Bytes) RlpError

-- Documented behaviour of alloy_rlp: what is encoded decodes again, in front of any rest; a header
-- is refused if its payload is not there; and the sizes of the RLP forms.
pub record RlpLaws (r : Rlp) : Type 0 where
  pub u64_decodes :
      (n : ℕ) (rest : Bytes) → n ≤ u64_max → r.decode_u64 (r.encode_u64 n ++ rest) ≡ ok (n, rest)
  pub array_decodes :
      (b rest : Bytes) → length b ≡ 32 → r.decode_array (r.encode_array b ++ rest) ≡ ok (b, rest)
  pub header_decodes :
      (h : RlpHeader) (rest : Bytes)
      → h.payload_length ≤ length rest
      → r.decode_header (r.encode_header h ++ rest) ≡ ok (h, rest)
  pub slice_as_array : (b : Bytes) → length b ≡ 32 → r.encode_slice b ≡ r.encode_array b
  pub u64_size : (n : ℕ) → n ≤ u64_max → length (r.encode_u64 n) ≤ 9
  pub array_size : (b : Bytes) → length b ≡ 32 → length (r.encode_array b) ≡ 33
  pub header_size :
      (h : RlpHeader)
      → h.payload_length ≤ 255
      → length (r.encode_header h) ≡ (if leb h.payload_length 55 then 1 else 2)

pub record AllegroConsensusContext : Type 0 where
  pub epoch : ℕ
  pub view : ℕ
  pub parent_view : ℕ
  pub proposer : ProposerKey

-- `from_commonware_proposer`.
unfoldable pub from_commonware_proposer : ℕ → ℕ → ℕ → PublicKey → AllegroConsensusContext
from_commonware_proposer epoch view parent_view proposer = record {
  epoch = epoch;
  view = view;
  parent_view = parent_view;
  proposer = record { raw = proposer.key_bytes };
}

-- `proposer_commonware`, on commonware's decoder of keys; `none` is the panic of `expect`.
unfoldable pub proposer_commonware :
    (Bytes → Option PublicKey) → AllegroConsensusContext → Option PublicKey
proposer_commonware decode_key c = decode_key c.proposer.raw

module _ (r : Rlp) where
  -- `impl Encodable for ProposerKey`.
  unfoldable pub encode_proposer : ProposerKey → Bytes
  encode_proposer k = r.encode_array k.raw

  -- Its `length`, which the source writes as a constant.
  unfoldable pub proposer_length : ProposerKey → ℕ
  proposer_length k = 32

  unfoldable pub decode_proposer : Bytes → Result (ProposerKey × Bytes) RlpError
  decode_proposer buf = and_then (r.decode_array buf) λ (arr, rest). ok (record { raw = arr }, rest)

  -- The fields, as `encode` and `length` buffer them.
  unfoldable pub context_payload : AllegroConsensusContext → Bytes
  context_payload c =
      r.encode_u64 c.epoch
      ++ (r.encode_u64 c.view ++ (r.encode_u64 c.parent_view ++ r.encode_slice c.proposer.raw))

  unfoldable pub encode_context : AllegroConsensusContext → Bytes
  unfolding context_payload
  encode_context c =
      let payload = context_payload c in
      r.encode_header (record { list = true; payload_length = length payload }) ++ payload

  unfoldable pub context_length : AllegroConsensusContext → ℕ
  unfolding context_payload
  context_length c =
      let pl = length (context_payload c) in
      (if leb pl 55 then 1 else if leb pl 255 then 2 else if leb pl 65535 then 3 else 4) + pl

  decode_fields : Bytes → Result (AllegroConsensusContext × Bytes) RlpError
  unfolding decode_proposer
  decode_fields buf = and_then (r.decode_u64 buf) λ (epoch, buf1).
      and_then (r.decode_u64 buf1) λ (view, buf2).
        and_then (r.decode_u64 buf2) λ (parent_view, buf3).
          and_then (decode_proposer buf3) λ (proposer, rest). ok (
            record { epoch = epoch; view = view; parent_view = parent_view; proposer = proposer },
            rest,
          )

  unfoldable pub decode_context : Bytes → Result (AllegroConsensusContext × Bytes) RlpError
  unfolding decode_fields
  decode_context buf =
      and_then (r.decode_header buf)
        λ (header, rest). if header.list then decode_fields rest else err unexpected_string
