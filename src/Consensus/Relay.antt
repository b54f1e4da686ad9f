-- ===== src/Consensus/Relay.antt =====
-- crates/consensus/src/engine.rs: the relay that broadcasts proposed blocks, and the task that
-- receives the blocks of peers. The transport is commonware's, a parameter.
pub mod Wire
use allegro.Prelude.{
  ℕ, Bool, true, false, List, ◌++◌, Option, none, some, Result, ok, err, ltb, length, take, drop,
  if◌then◌else◌,
}
use allegro.Prelude.Dict.{get, insert}
use allegro.Prelude.Lock.{Lock}
use allegro.Primitives.Digest.{Bytes, Digest, PublicKey, digest_eq}
use allegro.Consensus.Metrics.{
  Metrics, on_metrics, inc_errors, inc_blocks_broadcast, inc_blocks_received,
}
use allegro.Consensus.Plan.{Recipients, everyone, only, one, Plan, propose, forward}
use allegro.Consensus.Application.{Blocks}

-- `commonware_p2p::Sender`: `check` fails with a time while all recipients are rate-limited, and
-- `send` says whether the message was accepted. `N` is the state of the transport.
pub record Sender (N : Type 0) : Type 0 where
  pub check : Recipients → N → Result (List PublicKey) ℕ × N
  pub send : List PublicKey → Bytes → Bool → N → Bool × N

-- The 32 bytes of the digest, then the block.
abbrev pub wire : Digest → Bytes → Bytes
wire digest block_bytes = digest.inner ++ block_bytes

abbrev pub plan_recipients : Plan → Recipients
plan_recipients propose = everyone
plan_recipients (forward recipients) = recipients

module _ {N : Type 0} (sender : Sender N) where
  unfoldable pub send_block :
      Bytes → Result (List PublicKey) ℕ → Option Metrics → N → Option Metrics × N
  send_block msg (err until) metrics n = (on_metrics inc_errors metrics, n)
  send_block msg (ok checked) metrics n =
      let (accepted, n') = sender.send checked msg false n in
      (
        if accepted then on_metrics inc_blocks_broadcast metrics else on_metrics inc_errors metrics,
        n',
      )

  -- `broadcast`; `none` is the panic of `expect` on a poisoned lock. Its feedback is always `Ok`.
  unfoldable pub relay_broadcast :
      Digest → Plan → Lock Blocks → Option Metrics → N → Option (Option Metrics × N)
  unfolding send_block
  relay_broadcast digest plan pending metrics n =
      if pending.poisoned then none else elim (get pending.contents digest) [
        | none ↦ some (metrics, n)
        | some block_bytes ↦
            let (checked, n') = sender.check (plan_recipients plan) n in
            some (send_block (wire digest block_bytes) checked metrics n')
      ]

-- What `rx.recv()` returns.
pub data Received : Type 0 where
  message : PublicKey → Bytes → Received
  failure : Received

-- One round of the receiver's loop; the pause after a failure is not modelled.
unfoldable pub receive : Received → Lock Blocks → Option Metrics → Lock Blocks × Option Metrics
receive (message sender data_bytes) received metrics =
    if ltb (length data_bytes) 32
    then (received, metrics)
    else if received.poisoned
    then (received, on_metrics inc_errors metrics)
    else (
      record received {
        contents =
            insert received.contents (record { inner = take 32 data_bytes }) (drop 32 data_bytes);
      },
      on_metrics inc_blocks_received metrics,
    )
receive failure received metrics = (received, on_metrics inc_errors metrics)
