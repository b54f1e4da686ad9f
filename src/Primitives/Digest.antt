-- ===== src/Primitives/Digest.antt =====
-- crates/primitives/src/digest.rs: the `Digest` wrapper around a 32-byte hash; and the ed25519
-- public key of commonware, of which the source uses the bytes and the equality.
pub mod Codec
use allegro.Prelude.{
  ℕ, ◌≡◌, ◌↔◌, Bool, true, List, replicate, length, KeyEq, bytes_eqb, bytes_eqb_iff, arith,
}

abbrev pub Bytes : Type 0
Bytes = List ℕ

-- alloy's `B256`, by its bytes.
abbrev pub B256 : Type 0
B256 = Bytes

abbrev pub IsB256 : B256 → Type 0
IsB256 h = length h ≡ 32

-- `B256::ZERO`.
abbrev pub zero_hash : B256
zero_hash = replicate 32 0

pub record Digest : Type 0 where
  pub inner : B256

-- `Digest::EMPTY`.
abbrev pub empty_digest : Digest
empty_digest = record { inner = zero_hash }

-- `Digest::SIZE`.
abbrev pub digest_size : ℕ
digest_size = 32

abbrev pub digest_eqb : Digest → Digest → Bool
digest_eqb a b = bytes_eqb a.inner b.inner

pub digest_eqb_iff : (a b : Digest) → (digest_eqb a b ≡ true) ↔ (a ≡ b)
digest_eqb_iff a b = ground (arith, bytes_eqb_iff a.inner b.inner)

instance abbrev pub digest_eq : KeyEq Digest
digest_eq = record { same_key = digest_eqb; same_iff = digest_eqb_iff }

pub record PublicKey : Type 0 where
  pub key_bytes : Bytes

abbrev pub public_key_eqb : PublicKey → PublicKey → Bool
public_key_eqb a b = bytes_eqb a.key_bytes b.key_bytes

pub public_key_eqb_iff : (a b : PublicKey) → (public_key_eqb a b ≡ true) ↔ (a ≡ b)
public_key_eqb_iff a b = ground (arith, bytes_eqb_iff a.key_bytes b.key_bytes)

instance abbrev pub public_key_eq : KeyEq PublicKey
public_key_eq = record { same_key = public_key_eqb; same_iff = public_key_eqb_iff }
