-- ===== src/Network/Waiting/Whole.antt =====
-- A handler that nothing interrupts does what the handler does as one step.
use allegro.Prelude.{
  ℕ, zero, suc, ◌≡◌, refl, sym, ap, ◌∙◌, Option, none, some, Result, ok, err, map_err, Call, lift,
  map_err_call, ◌>>=◌, inl, inr, Bool-cases, Option-cases,
}
use allegro.Prelude.Dict.{get}
use Prim.Native.String.{String}
use Prim.Native.String
use allegro.Primitives.Digest.{Bytes, digest_eq, public_key_eq}
use allegro.Consensus.Validators.{set_lookup}
use allegro.Consensus.Executor.{BuiltPayload, BuildPayloadRequest, ValidationResult}
use allegro.Consensus.Application.{
  Actor, Message, propose, verify, broadcast, Propose, Verify, propose_request, count_proposal,
  find_block, after_build, after_validate, handle_propose, handle_verify, verify_bytes, step,
}
use allegro.Node.Reth.{Engine, EthFormat, PayloadStatus}
use allegro.Node.Builder.{Tracker, judge, build, validate, create_engine_payload_builder}
use allegro.Node.Builder.Stepwise.{
  Job, asking, resolving, importing, finished, start_build, build_step, build_steps,
  build_steps-build, build_steps-finished,
}
use allegro.Network.{engine_builder}
use allegro.Network.Waiting.{
  Busy, idle, proposing, begin, begin_verify, begin_found, begin_decoded, settle, verdict, resume,
}

module _ {W B X : Type 0} (eth : EthFormat B X) (engine : Engine W B X) where
  -- Some answers, one after the other, with nothing in between.
  unfoldable pub resumes : ℕ → Busy B × Actor × W → Busy B × Actor × W
  resumes zero x = x
  resumes (suc n) (busy, s, w) = resumes n (resume eth engine busy s w)

  resumes-idle : (n : ℕ) (s : Actor) (w : W) → resumes n (idle, s, w) ≡ (idle, s, w)
  unfolding resume resumes
  resumes-idle zero s w = refl
  resumes-idle (suc n) s w = resumes-idle n s w

  resumes-settle :
      (n : ℕ) (p : Propose) (request : BuildPayloadRequest) (job : Job B) (s : Actor) (w : W)
      (r : Result BuiltPayload String) (w' : W)
      → build_steps eth engine n job w ≡ (finished r, w')
      → resumes n (settle eth engine p request job s w) ≡ (idle, (after_build p request r s).1, w')
  unfolding resume resumes build_step build_steps
  resumes-settle zero p request job s w r w' e = ap (λ x. settle eth engine p request x.0 s x.1) e
  resumes-settle (suc n) p request (finished r0) s w r w' e =
      resumes-idle n _ w
      ∙ ap (λ x. settle eth engine p request x.0 s x.1)
          (sym (build_steps-finished eth engine n r0 w) ∙ e)
  resumes-settle (suc n) p request (asking fcs attrs k x) s w r w' e =
      resumes-settle n p request _ s _ r w' e
  resumes-settle (suc n) p request (resolving id) s w r w' e =
      resumes-settle n p request _ s _ r w' e
  resumes-settle (suc n) p request (importing block) s w r w' e =
      resumes-settle n p request _ s _ r w' e

  abbrev submit : B → Call W ValidationResult String
  submit block =
      map_err_call (String.◌++◌ "engine new_payload error: ")
        (engine.new_payload (eth.block_to_payload block))
      >>= λ status. lift (judge eth block status)

  -- What the validate closure answers, by the engine's answer on the decoded block.
  submitted :
      (block : B) (answer : Result PayloadStatus String) (w : W)
      → elim (map_err (String.◌++◌ "engine new_payload error: ") answer)
          as (λ _. Result ValidationResult String × W) [
            | ok status ↦ (judge eth block status, w)
            | err e ↦ (err e, w)
          ]
        ≡ (verdict eth engine block answer, w)
  submitted block (ok status) w = refl
  submitted block (err e) w = refl

  begin_decoded-resumes :
      (n : ℕ) (q : Verify) (decoded : Result B String) (s : Actor) (w : W)
      → let r = (lift decoded >>= submit) w in
        let (busy, s') = begin_decoded eth q decoded s in
        resumes (suc n) (busy, s', w) ≡ (idle, (after_validate q r.0 s).1, r.1)
  unfolding resume resumes
  begin_decoded-resumes n q (err e) s w = resumes-idle n _ w
  begin_decoded-resumes n q (ok block) s w =
      resumes-idle n _ _
      ∙ ap (λ r. (idle, (after_validate q r.0 s).1, r.1))
          (sym (
            submitted block (engine.new_payload (eth.block_to_payload block) w).0
              (engine.new_payload (eth.block_to_payload block) w).1))

  begin_found-resumes :
      (n : ℕ) (q : Verify) (found : Option Bytes) (s : Actor) (tracker : Tracker) (w : W)
      → let r = verify_bytes (engine_builder eth engine) q found s (tracker, w) in
        let (busy, s') = begin_found eth q found s in
        resumes (suc n) (busy, s', w) ≡ (idle, r.1, r.2.1)
  unfolding verify_bytes create_engine_payload_builder validate
  begin_found-resumes n q none s tracker w = resumes-idle (suc n) _ w
  begin_found-resumes n q (some bytes) s tracker w =
      begin_decoded-resumes n q (map_err (String.◌++◌ "rlp decode: ") (eth.decode bytes)) s w

  build-resumes :
      (p : Propose) (request : BuildPayloadRequest) (s : Actor) (tracker : Tracker) (w : W)
      → let (r, w') = build eth engine tracker request w in
        resumes 8 (proposing p request (start_build tracker request), s, w)
        ≡ (idle, (after_build p request r s).1, w')
  unfolding start_build
  build-resumes p request s tracker w =
      resumes-settle 8 p request (start_build tracker request) s w
        (build eth engine tracker request w).0 (build eth engine tracker request w).1
        (build_steps-build eth engine tracker request w)

  -- The waits of a handler leave nothing out: what the actor does with any message up to its first
  -- wait, followed by 8 answers of the execution layer, with nothing in between, leaves it idle,
  -- with the stores and metrics, and the execution layer in the state, that handling the message in
  -- one go gives.
  pub resumes-begin :
      (clock : Option ℕ) (msg : Message) (s : Actor) (tracker : Tracker) (w : W)
      → let (busy, s') = begin eth clock msg s tracker in
        let r = step (engine_builder eth engine) clock msg s (tracker, w) in
        resumes 8 (busy, s', w) ≡ (idle, r.0, r.1.1)
  unfolding begin step handle_propose handle_verify create_engine_payload_builder
  resumes-begin clock (broadcast d) s tracker w = resumes-idle 8 s w
  resumes-begin clock (propose p) s tracker w = elim (Bool-cases s.block_info.poisoned) [
    | inl poisoned ↦ simp poisoned (resumes-idle 8 _ w)
    | inr healthy ↦ simp healthy (
        build-resumes p (propose_request clock p (get s.block_info.contents p.parent_digest))
          (count_proposal s) tracker w)
  ]
  resumes-begin clock (verify q) s tracker w =
      elim (Option-cases (set_lookup s.validators q.proposer)) [
        | inl unknown ↦ rw (unknown, begin, begin_verify, handle_verify) (resumes-idle 8 _ w)
        | inr (address, known) ↦
            rw (known, begin, begin_verify, handle_verify)
              (elim (Bool-cases s.pending_blocks.poisoned) [
                | inl poisoned ↦ simp poisoned (resumes-idle 8 _ w)
                | inr healthy ↦
                    simp healthy (begin_found-resumes 7 q (find_block q.payload s) s tracker w)
              ])
      ]
