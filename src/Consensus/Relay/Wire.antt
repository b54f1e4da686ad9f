-- ===== src/Consensus/Relay/Wire.antt =====
-- What the relay sends is what the receiver stores.
use allegro.Prelude.{
  ◌≡◌, refl, false, Option, some, take, drop, arith, ◌==◌, if◌then◌else◌, length-append,
  take-append_at, drop-append_at,
}
use allegro.Prelude.Dict.{get, insert, get-insert}
use allegro.Prelude.Lock.{Lock}
use allegro.Primitives.Digest.{Bytes, Digest, PublicKey, IsB256, digest_eq}
use allegro.Consensus.Metrics.{Metrics}
use allegro.Consensus.Application.{Blocks}
use allegro.Consensus.Relay.{wire, Received, message, failure, receive}

pub receive_keeps_lock :
    (r : Received) (received : Lock Blocks) (metrics : Option Metrics)
    → (receive r received metrics).0.poisoned ≡ received.poisoned
unfolding receive
receive_keeps_lock failure received metrics = refl
receive_keeps_lock (message from data_bytes) received metrics = ground arith

pub receive-wire_contents :
    (from : PublicKey) (d : Digest) (block_bytes : Bytes) (received : Lock Blocks)
    (metrics : Option Metrics)
    → IsB256 d.inner
    → received.poisoned ≡ false
    → (receive (message from (wire d block_bytes)) received metrics).0.contents
      ≡ insert received.contents d block_bytes
unfolding receive
receive-wire_contents from d block_bytes received metrics size healthy =
    let digest : take 32 (wire d block_bytes) ≡ d.inner =
      take-append_at 32 d.inner block_bytes size in
    let rest : drop 32 (wire d block_bytes) ≡ block_bytes =
      drop-append_at 32 d.inner block_bytes size in
    ground (arith, digest, rest, length-append d.inner block_bytes)

-- A block that is received in the relay's wire form under a 32-byte digest is stored with its bytes
-- under that digest, and what is stored under other digests stays, if the store is not poisoned.
pub receive-wire :
    (from : PublicKey) (d : Digest) (block_bytes : Bytes) (received : Lock Blocks)
    (metrics : Option Metrics)
    → IsB256 d.inner
    → received.poisoned ≡ false
    → ((j : Digest)
        → get (receive (message from (wire d block_bytes)) received metrics).0.contents j
          ≡ (if d == j then some block_bytes else get received.contents j))
unfolding receive
receive-wire from d block_bytes received metrics size healthy j =
    rw (receive-wire_contents from d block_bytes received metrics size healthy)
      (get-insert received.contents d j block_bytes)
