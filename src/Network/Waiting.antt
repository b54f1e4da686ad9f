-- ===== src/Network/Waiting.antt =====
-- The handlers of crates/consensus/src/application.rs by their waits, over the closures of
-- crates/node/src/builder.rs: a handler runs up to a wait for the execution layer, and goes on when
-- the answer comes. Between the two, the other tasks of the node run.
pub mod Whole
pub mod Work
pub mod Keeps
pub mod Finishing
use allegro.Prelude.{ℕ, Option, none, some, Result, ok, err, map_err, and_then, if◌then◌else◌}
use allegro.Prelude.Dict.{get}
use Prim.Native.String.{String}
use Prim.Native.String
use allegro.Primitives.Digest.{Bytes, digest_eq, public_key_eq}
use allegro.Consensus.Validators.{set_lookup}
use allegro.Consensus.Executor.{BuildPayloadRequest, ValidationResult}
use allegro.Consensus.Application.{
  Actor, Message, propose, verify, broadcast, Propose, Verify, propose_request, count_proposal,
  count_failed, find_block, after_build, after_validate,
}
use allegro.Node.Reth.{Engine, EthFormat, PayloadStatus}
use allegro.Node.Builder.{Tracker, judge}
use allegro.Node.Builder.Stepwise.{
  Job, asking, resolving, importing, finished, start_build, build_step,
}

-- What the actor of a node is at: nothing, the build of a proposal, or the wait for the engine's
-- verdict on the block of a verification.
pub data Busy (B : Type 0) : Type 0 where
  idle : Busy B
  proposing : Propose → BuildPayloadRequest → Job B → Busy B
  verifying : Verify → B → Busy B

module _ {B X : Type 0} (eth : EthFormat B X) where
  abbrev pub begin_decoded : Verify → Result B String → Actor → Busy B × Actor
  begin_decoded q (err e) s = (idle, (after_validate q (err e) s).1)
  begin_decoded q (ok block) s = (verifying q block, s)

  abbrev pub begin_found : Verify → Option Bytes → Actor → Busy B × Actor
  begin_found q none s = (idle, count_failed s)
  begin_found q (some bytes) s =
      begin_decoded q (map_err (String.◌++◌ "rlp decode: ") (eth.decode bytes)) s

  abbrev pub begin_propose : Option ℕ → Propose → Actor → Tracker → Busy B × Actor
  begin_propose clock p s tracker =
      if s.block_info.poisoned
      then (idle, count_proposal s)
      else (let request = propose_request clock p (get s.block_info.contents p.parent_digest) in
          (proposing p request (start_build tracker request), count_proposal s))

  abbrev pub begin_verify : Verify → Actor → Busy B × Actor
  begin_verify q s = elim (set_lookup s.validators q.proposer) [
    | none ↦ (idle, count_failed s)
    | some address ↦
        if s.pending_blocks.poisoned then (idle, s) else begin_found q (find_block q.payload s) s
  ]

  -- The actor takes a message, up to the first wait.
  unfoldable pub begin : Option ℕ → Message → Actor → Tracker → Busy B × Actor
  unfolding propose_request find_block
  begin clock (propose p) s tracker = begin_propose clock p s tracker
  begin clock (verify q) s tracker = begin_verify q s
  begin clock (broadcast d) s tracker = (idle, s)

module _ {W B X : Type 0} (eth : EthFormat B X) (engine : Engine W B X) where
  abbrev pub settle : Propose → BuildPayloadRequest → Job B → Actor → W → Busy B × Actor × W
  settle p request (finished r) s w = (idle, (after_build p request r s).1, w)
  settle p request (asking fcs attrs n e) s w = (proposing p request (asking fcs attrs n e), s, w)
  settle p request (resolving id) s w = (proposing p request (resolving id), s, w)
  settle p request (importing block) s w = (proposing p request (importing block), s, w)

  abbrev pub verdict : B → Result PayloadStatus String → Result ValidationResult String
  verdict block answer =
      and_then (map_err (String.◌++◌ "engine new_payload error: ") answer) (judge eth block)

  -- The answer comes, and the actor goes on to its next wait.
  unfoldable pub resume : Busy B → Actor → W → Busy B × Actor × W
  unfolding build_step
  resume idle s w = (idle, s, w)
  resume (proposing p request job) s w =
      let (job', w') = build_step eth engine job w in settle p request job' s w'
  resume (verifying q block) s w =
      let (answer, w') = engine.new_payload (eth.block_to_payload block) w in
      (idle, (after_validate q (verdict block answer) s).1, w')
