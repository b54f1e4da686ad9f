-- ===== src/Primitives/Header/Proposer.antt =====
-- The proposer's key survives its way through a block header.
use allegro.Prelude.{ℕ, ◌≤◌, ◌≡◌, refl, ◌++◌, Option, some, ok, length, u64_max}
use allegro.Primitives.Digest.{Bytes, PublicKey}
use allegro.Primitives.Header.{
  Rlp, RlpLaws, AllegroConsensusContext, from_commonware_proposer, proposer_commonware,
  encode_context, decode_context,
}
use allegro.Primitives.Header.RoundTrip.{decode_context-encode_context}

-- A consensus context that is made of 64-bit numbers and a 32-byte public key which commonware
-- decodes, and encoded in front of any rest, decodes to a context with these numbers whose proposer
-- is that key, and leaves the rest.
pub proposer_commonware-decode_context :
    (r : Rlp) (decode_key : Bytes → Option PublicKey)
    → RlpLaws r
    → (key : PublicKey) → decode_key key.key_bytes ≡ some key
    → length key.key_bytes ≡ 32
    → (epoch view parent_view : ℕ) → epoch ≤ u64_max
    → view ≤ u64_max
    → parent_view ≤ u64_max
    → (rest : Bytes)
    → (c : AllegroConsensusContext) × (decode_context r
          (encode_context r (from_commonware_proposer epoch view parent_view key) ++ rest)
        ≡ ok (c, rest))
      × (proposer_commonware decode_key c ≡ some key)
      × (c.epoch ≡ epoch)
      × (c.view ≡ view)
      × (c.parent_view ≡ parent_view)
unfolding from_commonware_proposer proposer_commonware
proposer_commonware-decode_context r decode_key laws key decodes size epoch view parent_view e v p
      rest =
    let c = from_commonware_proposer epoch view parent_view key in
    (
      c,
      decode_context-encode_context r laws c rest
          (record { epoch_fits = e; view_fits = v; parent_view_fits = p; proposer_fits = size }),
      decodes,
      refl,
      refl,
      refl,
    )
