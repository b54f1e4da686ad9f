-- ===== src/Consensus/Block.antt =====
-- crates/consensus/src/block.rs: the block of commonware's marshal and p2p layers, and its codec.
-- Buffers are the `bytes` crate's traits: interfaces with their documented behaviour.
pub mod RoundTrip
use allegro.Prelude.{
  ℕ, ◌+◌, ◌≤◌, ◌≡◌, Result, ok, err, length, take, drop, ltb, ◌++◌, if◌then◌else◌,
}
use allegro.Primitives.Digest.{Bytes, B256, Digest}

pub record Block : Type 0 where
  pub inner : Bytes
  pub hash : B256

-- `Block::new`, `Block::hash` and `Block::raw`.
abbrev pub new_block : Bytes → B256 → Block
new_block inner hash = record { inner = inner; hash = hash }

abbrev pub block_hash : Block → B256
block_hash b = b.hash

abbrev pub block_raw : Block → Bytes
block_raw b = b.inner

unfoldable pub block_digest : Block → Digest
block_digest b = record { inner = b.hash }

unfoldable pub block_commitment : Block → Digest
block_commitment b = record { inner = b.hash }

-- `Heightable`: no parsed height, so zero.
unfoldable pub block_height : Block → ℕ
block_height b = 0

pub data CodecError : Type 0 where
  buffer_too_short : CodecError

-- `bytes::Buf`; `contents` is what is left to read.
pub record Buf (B : Type 0) : Type 0 where
  pub remaining : B → ℕ
  pub copy_to_slice : ℕ → B → Bytes × B
  pub contents : B → Bytes
  pub remaining-length : (b : B) → remaining b ≡ length (contents b)
  pub copy-take :
      (n : ℕ) (b : B) → n ≤ length (contents b) → (copy_to_slice n b).0 ≡ take n (contents b)
  pub copy-drop :
      (n : ℕ) (b : B)
      → n ≤ length (contents b)
      → contents (copy_to_slice n b).1 ≡ drop n (contents b)

-- `bytes::BufMut`; `written` is what has been written.
pub record BufMut (B : Type 0) : Type 0 where
  pub put_slice : Bytes → B → B
  pub written : B → Bytes
  pub written-put : (bs : Bytes) (b : B) → written (put_slice bs b) ≡ written b ++ bs

-- `EncodeSize`.
unfoldable pub encode_size : Block → ℕ
encode_size b = 32 + length b.inner

module _ {B : Type 0} where
  -- `Write`.
  unfoldable pub write : BufMut B → Block → B → B
  write m b buf = m.put_slice b.inner (m.put_slice b.hash buf)

  -- `Read`, with the buffer that is left.
  unfoldable pub read_cfg : Buf B → B → Result Block CodecError × B
  read_cfg r buf =
      if ltb (r.remaining buf) 32
      then (err buffer_too_short, buf)
      else (let (hash_bytes, buf1) = r.copy_to_slice 32 buf in
          let (inner, buf2) = r.copy_to_slice (r.remaining buf1) buf1 in
          (ok (record { inner = inner; hash = hash_bytes }), buf2))
