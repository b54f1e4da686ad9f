-- ===== src/Examples/ConsensusTests.antt =====
-- The engine's start, the reporters, the relay, the block codec and the header on concrete inputs.
use allegro.Prelude.{
  ℕ, ◌<◌, ◌≡◌, refl, Bool, true, false, List, [], ◌∷◌, ◌++◌, Option, none, some, ok, err, length,
  replicate, arith, ◌⊎◌, if◌then◌else◌, ◌==◌,
}
use allegro.Prelude.Dict.{get, insert}
use allegro.Prelude.Equality.{bytes_eqb}
use allegro.Prelude.Lock.{new_lock}
use allegro.Primitives.Digest.{
  Bytes, Digest, PublicKey, IsB256, digest_eq, empty_digest, public_key_eq,
}
use allegro.Primitives.Header.{
  AllegroConsensusContext, context_payload, encode_context, context_length, decode_context,
}
use allegro.Primitives.Digest.{PublicKey}
use allegro.Primitives.Header.{from_commonware_proposer, proposer_commonware}
use allegro.Primitives.Header.Proposer.{proposer_commonware-decode_context}
use allegro.Primitives.Header.RoundTrip.{
  IsContext, decode_context_any_length, context_length-eq-length,
}
use allegro.Consensus.Block.{Block, buffer_too_short, encode_size, write, read_cfg}
use allegro.Consensus.Block.RoundTrip.{read_cfg-write, write-read_cfg}
use allegro.Consensus.Metrics.{Metrics, new_metrics}
use allegro.Consensus.Plan.{propose}
use allegro.Consensus.Relay.{wire, relay_broadcast, message, receive}
use allegro.Consensus.Relay.Wire.{receive-wire}
use allegro.Consensus.Loopback.{Unreliable, new, rejected, loopback_sender, recv}
use allegro.Consensus.Loopback.SelfDelivery.{loopback_delivers}
use allegro.Consensus.Reporter.{Activity, finalization, notarize, nullify, MetricsReporter}
use allegro.Consensus.Validators.{ValidatorEntry, from_entries, set_lookup}
use allegro.Consensus.Validators.Entries.{last_address, set_lookup-from_entries}
use allegro.Xtask.RoundTrip.{localhost}
use allegro.Examples.Fixtures.{Queue, queue_channel, slice_buf, slice_buf_mut, rlp, rlp-RlpLaws}
use allegro.Examples.Scenario.{digest, block_bytes, block_hash, leader_key}

-- Two finalizations, with other activity between.
abbrev activities : List Activity
activities = finalization 1 digest ∷ notarize 2 ∷ nullify 3 ∷ finalization 4 empty_digest ∷ []

abbrev reporter : ℕ → MetricsReporter (Queue Digest)
reporter limit = record {
  metrics = some new_metrics;
  finalized_tx = some (record { items = []; live = true; limit = limit });
}

receive-wire_example :
    get
      (receive (message leader_key (wire digest block_bytes)) (new_lock []) none).0.contents
      digest
    ≡ (if digest == digest then some block_bytes else get [] digest)
receive-wire_example =
    receive-wire leader_key digest block_bytes (new_lock []) none refl refl digest

abbrev taken : Unreliable → Bool
taken (new _) = true
taken rejected = false

abbrev wires : Queue (PublicKey × Bytes)
wires = record { items = []; live = true; limit = 4 }

loopback_delivers_example :
    (m : Option Metrics) × (c1 c2 : Queue (PublicKey × Bytes)) × (relay_broadcast
        (loopback_sender (queue_channel (PublicKey × Bytes)) leader_key taken)
        digest
        propose
        (new_lock ((digest, block_bytes) ∷ []))
        (some new_metrics)
        wires
      ≡ some (m, c1))
    × (recv (queue_channel (PublicKey × Bytes)) leader_key c1
        ≡ (some (message leader_key (wire digest block_bytes)), c2))
    × ((receive (message leader_key (wire digest block_bytes)) (new_lock []) m).0.contents
        ≡ insert [] digest block_bytes)
    × (c2.items ≡ [])
unfolding get bytes_eqb
loopback_delivers_example =
    loopback_delivers (queue_channel (PublicKey × Bytes)) leader_key taken digest propose
      (new_lock ((digest, block_bytes) ∷ [])) (new_lock []) (some new_metrics) wires block_bytes
      refl refl refl refl refl refl (omega arith)

abbrev block : Block
block = record { inner = block_bytes; hash = block_hash }

read_cfg-write_example :
    ((read_cfg slice_buf (block_hash ++ block_bytes)).0 ≡ ok block)
    × ((read_cfg slice_buf (block_hash ++ block_bytes)).1 ≡ [])
    × (length (block_hash ++ block_bytes) ≡ encode_size block)
unfolding write
read_cfg-write_example =
    read_cfg-write slice_buf slice_buf_mut [] (block_hash ++ block_bytes) block refl refl refl

write-read_cfg_example :
    ((length (block_hash ++ block_bytes) < 32)
      × (read_cfg slice_buf (block_hash ++ block_bytes)
          ≡ (err buffer_too_short, block_hash ++ block_bytes)))
    ⊎ ((b : Block) × ((read_cfg slice_buf (block_hash ++ block_bytes)).0 ≡ ok b)
        × IsB256 b.hash
        × (write slice_buf_mut b [] ≡ block_hash ++ block_bytes))
write-read_cfg_example = write-read_cfg slice_buf slice_buf_mut [] (block_hash ++ block_bytes) refl

abbrev context : AllegroConsensusContext
context = record {
  epoch = 0;
  view = 7;
  parent_view = 6;
  proposer = record { raw = replicate 32 9 };
}

context-IsContext : IsContext context
context-IsContext = record {
  epoch_fits = omega arith;
  view_fits = omega arith;
  parent_view_fits = omega arith;
  proposer_fits = refl;
}

abbrev leading : PublicKey
leading = record { key_bytes = replicate 32 7 }

proposer_commonware-decode_context_example :
    (c : AllegroConsensusContext) × (decode_context rlp
        (encode_context rlp (from_commonware_proposer 0 2 1 leading) ++ 1 ∷ [])
      ≡ ok (c, 1 ∷ []))
    × (proposer_commonware (λ bytes. some (record { key_bytes = bytes })) c ≡ some leading)
    × (c.epoch ≡ 0)
    × (c.view ≡ 2)
    × (c.parent_view ≡ 1)
proposer_commonware-decode_context_example =
    proposer_commonware-decode_context rlp (λ bytes. some (record { key_bytes = bytes }))
      rlp-RlpLaws leading refl refl 0 2 1 (omega arith) (omega arith) (omega arith) (1 ∷ [])

decode_context_any_length_example :
    decode_context rlp (
      rlp.encode_header (record { list = true; payload_length = 3 })
      ++ (context_payload rlp context ++ 1 ∷ []))
    ≡ ok (context, 1 ∷ [])
unfolding context_payload
decode_context_any_length_example =
    decode_context_any_length rlp rlp-RlpLaws context 3 (1 ∷ []) context-IsContext (omega arith)

context_length-eq-length_example : context_length rlp context ≡ length (encode_context rlp context)
context_length-eq-length_example =
    context_length-eq-length rlp rlp-RlpLaws context context-IsContext

-- One key twice: the second address stays.
abbrev entries : List ValidatorEntry
entries =
    record {
      public_key = leader_key;
      ingress = record { ip = localhost; port = 1 };
      egress = localhost;
    }
    ∷ record {
      public_key = leader_key;
      ingress = record { ip = localhost; port = 2 };
      egress = localhost;
    }
    ∷ []

set_lookup-from_entries_example :
    set_lookup (from_entries entries) leader_key ≡ last_address none entries leader_key
set_lookup-from_entries_example = set_lookup-from_entries entries leader_key
