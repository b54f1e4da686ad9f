-- ===== src/Primitives/Digest/Codec.antt =====
-- crates/primitives/src/digest.rs: the digest's accessors, codec, display and random value. The
-- codecs of 32 bytes are commonware's, the display is alloy's, and the random bytes are the caller's.
use allegro.Prelude.{ℕ, Result, ok, and_then}
use Prim.Native.String.{String}
use allegro.Primitives.Digest.{Bytes, B256, Digest}

-- `<[u8; 32]>::read` and `B256::write`, on the two kinds of buffers.
pub record ArrayCodec (R W E : Type 0) : Type 0 where
  pub read : R → Result (Bytes × R) E
  pub write : B256 → W → W

-- `get`, which `as_ref` and `deref` give as a slice.
abbrev digest_get : Digest → B256
digest_get d = d.inner

abbrev digest_display : (B256 → String) → Digest → String
digest_display show d = show d.inner

-- `fill_bytes` takes its bytes from the generator's state.
abbrev digest_random : {G : Type 0} → (ℕ → G → Bytes × G) → G → Digest × G
digest_random fill_bytes rng =
    let (array, rng') = fill_bytes 32 rng in (record { inner = array }, rng')

module _ {R W E : Type 0} (codec : ArrayCodec R W E) where
  unfoldable pub digest_read : R → Result (Digest × R) E
  digest_read buf = and_then (codec.read buf) λ (array, rest). ok (record { inner = array }, rest)

  unfoldable pub digest_write : Digest → W → W
  digest_write d buf = codec.write d.inner buf
