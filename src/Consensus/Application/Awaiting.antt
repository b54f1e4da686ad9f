-- ===== src/Consensus/Application/Awaiting.antt =====
-- What comes while a handler waits for the execution layer: the receiver task of
-- crates/consensus/src/engine.rs stores blocks between the start of a handler and its rest.
use allegro.Prelude.{ℕ, ◌≡◌, refl, false, ap, ◌∙◌, List, [], ◌∷◌, Option, some, Result, arith}
use Prim.Native.String.{String}
use allegro.Prelude.Dict.{get}
use allegro.Primitives.Digest.{Bytes, digest_eq, public_key_eq}
use allegro.Consensus.Validators.{Address, set_lookup}
use allegro.Consensus.Executor.{BuiltPayload, BuildPayloadRequest, ValidationResult, PayloadBuilder}
use allegro.Consensus.Application.{
  Actor, Propose, Verify, propose_request, count_proposal, after_build, handle_propose, find_block,
  verify_bytes, after_validate, handle_verify,
}
use allegro.Consensus.Relay.{Received, receive}

-- The actor's stores and metrics of the stores after the receiver took some messages.
abbrev pub receive_all : List Received → Actor → Actor
receive_all [] s = s
receive_all (r ∷ rs) s =
    let (blocks, metrics) = receive r s.received_blocks s.metrics in
    receive_all rs (record s { received_blocks = blocks; metrics = metrics })

-- One received message, before or after the rest of a proposal.
after_build-receive :
    (r : Received) (msg : Propose) (request : BuildPayloadRequest)
    (built : Result BuiltPayload String) (s : Actor)
    → let (answer, s') = after_build msg request built s in
      after_build msg request built (receive_all (r ∷ []) s) ≡ (answer, receive_all (r ∷ []) s')
unfolding after_build receive
after_build-receive r msg request built s = ground arith

after_validate-receive :
    (r : Received) (msg : Verify) (verdict : Result ValidationResult String) (s : Actor)
    → let (answer, s') = after_validate msg verdict s in
      after_validate msg verdict (receive_all (r ∷ []) s) ≡ (answer, receive_all (r ∷ []) s')
unfolding after_validate receive
after_validate-receive r msg verdict s = ground arith

after_build-receive_all :
    (rs : List Received) (msg : Propose) (request : BuildPayloadRequest)
    (built : Result BuiltPayload String) (s : Actor)
    → let (answer, s') = after_build msg request built s in
      after_build msg request built (receive_all rs s) ≡ (answer, receive_all rs s')
after_build-receive_all [] msg request built s = refl
after_build-receive_all (r ∷ rs) msg request built s =
    after_build-receive_all rs msg request built (receive_all (r ∷ []) s)
    ∙ ap (λ a. (a.0, receive_all rs a.1)) (after_build-receive r msg request built s)

after_validate-receive_all :
    (rs : List Received) (msg : Verify) (verdict : Result ValidationResult String) (s : Actor)
    → let (answer, s') = after_validate msg verdict s in
      after_validate msg verdict (receive_all rs s) ≡ (answer, receive_all rs s')
after_validate-receive_all [] msg verdict s = refl
after_validate-receive_all (r ∷ rs) msg verdict s =
    after_validate-receive_all rs msg verdict (receive_all (r ∷ []) s)
    ∙ ap (λ a. (a.0, receive_all rs a.1)) (after_validate-receive r msg verdict s)

module _ {W : Type 0} (builder : PayloadBuilder W) where
  handle_propose-after_build :
      (clock : Option ℕ) (p : Propose) (s : Actor) (w : W)
      → s.block_info.poisoned ≡ false
      → let request = propose_request clock p (get s.block_info.contents p.parent_digest) in
        let (answer, s', w') = handle_propose builder clock p s w in
        after_build p request (builder.build_payload request w).0 (count_proposal s) ≡ (answer, s')
  unfolding handle_propose
  handle_propose-after_build clock p s w healthy = ground arith

  handle_verify-after_validate :
      (q : Verify) (bytes : Bytes) (address : Address) (s : Actor) (w : W)
      → set_lookup s.validators q.proposer ≡ some address
      → s.pending_blocks.poisoned ≡ false
      → find_block q.payload s ≡ some bytes
      → let (answer, s', w') = handle_verify builder q s w in
        after_validate q (builder.validate_block bytes q.parent_digest.inner w).0 s ≡ (answer, s')
  unfolding handle_verify verify_bytes
  handle_verify-after_validate q bytes address s w known healthy found = ground arith

  -- If the receiver takes any messages and errors while a handler waits for the execution layer,
  -- its rest gives the same answer, and leaves the actor's stores and metrics as they are if the
  -- receiver takes the same after the handler. This holds of a proposal with unpoisoned known
  -- blocks, and of a verification whose proposer is in the set, with unpoisoned own blocks, and
  -- whose bytes are found.
  pub handlers_await :
      (rs : List Received) (clock : Option ℕ) (p : Propose) (q : Verify) (bytes : Bytes)
      (address : Address) (s : Actor) (w : W)
      → s.block_info.poisoned ≡ false
      → s.pending_blocks.poisoned ≡ false
      → set_lookup s.validators q.proposer ≡ some address
      → find_block q.payload s ≡ some bytes
      → let request = propose_request clock p (get s.block_info.contents p.parent_digest) in
        let (digest, proposed, _) = handle_propose builder clock p s w in
        let (accepted, verified, _) = handle_verify builder q s w in
        (after_build p request
            (builder.build_payload request w).0
            (receive_all rs (count_proposal s))
          ≡ (digest, receive_all rs proposed))
        × (after_validate q
              (builder.validate_block bytes q.parent_digest.inner w).0
              (receive_all rs s)
            ≡ (accepted, receive_all rs verified))
  handlers_await rs clock p q bytes address s w infos pending known found =
      let request = propose_request clock p (get s.block_info.contents p.parent_digest) in
      (
        after_build-receive_all rs p request (builder.build_payload request w).0 (count_proposal s)
            ∙ ap (λ a. (a.0, receive_all rs a.1)) (handle_propose-after_build clock p s w infos),
        after_validate-receive_all rs q (builder.validate_block bytes q.parent_digest.inner w).0 s
            ∙ ap (λ a. (a.0, receive_all rs a.1))
                (handle_verify-after_validate q bytes address s w known pending found),
      )
