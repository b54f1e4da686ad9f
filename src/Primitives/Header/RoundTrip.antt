-- ===== src/Primitives/Header/RoundTrip.antt =====
-- The RLP form of a consensus context: decoding, the length that is announced, and the proposer key.
use allegro.Prelude.{ℕ, ◌≤◌, ◌≡◌, true, ◌++◌, ok, length, length-append, u64_max, arith}
use mathlib.Core.List.{append_assoc}
use allegro.Primitives.Digest.{Bytes}
use allegro.Primitives.Header.{
  Rlp, RlpLaws, AllegroConsensusContext, context_payload, encode_context, context_length,
  decode_fields, decode_context,
}

-- The fields are u64 and the proposer key has 32 bytes.
pub record IsContext (c : AllegroConsensusContext) : Type 0 where
  pub epoch_fits : c.epoch ≤ u64_max
  pub view_fits : c.view ≤ u64_max
  pub parent_view_fits : c.parent_view ≤ u64_max
  pub proposer_fits : length c.proposer.raw ≡ 32

module _ (r : Rlp) (laws : RlpLaws r) where
  decode_fields-payload :
      (c : AllegroConsensusContext) (rest : Bytes)
      → IsContext c
      → decode_fields r (context_payload r c ++ rest) ≡ ok (c, rest)
  unfolding decode_fields context_payload
  decode_fields-payload c rest h = simp (
    append_assoc,
    laws.slice_as_array c.proposer.raw h.proposer_fits,
    laws.u64_decodes c.epoch _ h.epoch_fits,
    laws.u64_decodes c.view _ h.view_fits,
    laws.u64_decodes c.parent_view _ h.parent_view_fits,
    laws.array_decodes c.proposer.raw rest h.proposer_fits,
  )

  -- The payload length in the list header of a consensus context is not compared with the fields:
  -- with any length that is not past the input, the same context is decoded, and the same rest is
  -- left.
  pub decode_context_any_length :
      (c : AllegroConsensusContext) (n : ℕ) (rest : Bytes)
      → IsContext c
      → n ≤ length (context_payload r c ++ rest)
      → decode_context r (
          r.encode_header (record { list = true; payload_length = n })
          ++ (context_payload r c ++ rest))
        ≡ ok (c, rest)
  unfolding decode_context
  decode_context_any_length c n rest h fits =
      rw (laws.header_decodes (record { list = true; payload_length = n }) _ fits)
        (decode_fields-payload c rest h)

  -- A consensus context with 64-bit numbers and a 32-byte key decodes from its encoding, in front
  -- of any rest, which is left.
  pub decode_context-encode_context :
      (c : AllegroConsensusContext) (rest : Bytes)
      → IsContext c
      → decode_context r (encode_context r c ++ rest) ≡ ok (c, rest)
  unfolding encode_context
  decode_context-encode_context c rest h = rw append_assoc (
      decode_context_any_length c (length (context_payload r c)) rest h
        (omega (arith, length-append {0} (context_payload r c) rest)))

  payload_size : (c : AllegroConsensusContext) → IsContext c → length (context_payload r c) ≤ 60
  unfolding context_payload
  payload_size c h =
      rw
        (
          length-append {0},
          length-append {0},
          length-append {0},
          laws.slice_as_array c.proposer.raw h.proposer_fits,
        )
        (omega (
          arith,
          laws.u64_size c.epoch h.epoch_fits,
          laws.u64_size c.view h.view_fits,
          laws.u64_size c.parent_view h.parent_view_fits,
          laws.array_size c.proposer.raw h.proposer_fits,
        ))

  -- The length that a consensus context with 64-bit numbers and a 32-byte key announces is the
  -- length of its encoding.
  pub context_length-eq-length :
      (c : AllegroConsensusContext) → IsContext c → context_length r c ≡ length (encode_context r c)
  unfolding context_length encode_context
  context_length-eq-length c h = ground (
    arith,
    payload_size c h,
    length-append
        (r.encode_header (record { list = true; payload_length = length (context_payload r c) }))
        (context_payload r c),
    laws.header_size (record { list = true; payload_length = length (context_payload r c) }),
  )
