-- ===== src/Consensus/Application/Rooting.antt =====
-- What becomes of the genesis block that the actor registers under the empty digest.
use allegro.Prelude.{
  ℕ, ◌≡◌, ap, ◌∙◌, Bool, false, List, [], ◌∷◌, Option, some, arith, inl, inr, ◌⊎◌, Bool-cases, ◌==◌,
  ok,
}
use allegro.Prelude.Dict.{get}
use allegro.Primitives.Digest.{Digest, digest_eq, digest_eqb_iff, zero_hash, empty_digest}
use allegro.Consensus.Executor.{BuiltPayload, BuildPayloadRequest, PayloadBuilder}
use allegro.Consensus.Application.{
  Actor, BlockInfo, Message, propose, verify, broadcast, Propose, Verify, step, run,
}
use allegro.Consensus.Application.Changes.{step-Change, Change-info_lock}
use allegro.Consensus.Application.Proposing.{
  Proposal, poisoned, failed, answered, handle_propose-Proposal,
}
use allegro.Consensus.Application.Recording.{
  Verification, accepted, refused, handle_verify-Verification,
}

-- One of these messages asks for the verification of the empty digest.
pub data AsksEmpty : List (Option ℕ × Message) → Type 0 where
  now :
      {clock : Option ℕ} {msgs : List (Option ℕ × Message)} (q : Verify)
      → q.payload ≡ empty_digest
      → AsksEmpty ((clock, verify q) ∷ msgs)
  later :
      {m : Option ℕ × Message} {msgs : List (Option ℕ × Message)}
      → AsksEmpty msgs
      → AsksEmpty (m ∷ msgs)

module _ {W Zero : Type 0} (builder : PayloadBuilder W)
    (hashes : (request : BuildPayloadRequest) (w : W) (payload : BuiltPayload)
      → (builder.build_payload request w).0 ≡ ok payload
      → payload.block_hash ≡ zero_hash
      → Zero)
    (info : BlockInfo) where
  propose-keeps :
      (msg : Propose) (s : Actor) (w : W) (r : Option Digest × Actor × W)
      → Proposal builder msg s w r
      → get s.block_info.contents empty_digest ≡ some info
      → (get r.1.block_info.contents empty_digest ≡ some info) ⊎ Zero
  propose-keeps msg s w r (poisoned p silent same world) h =
      inl (ap (λ l. get l.contents empty_digest) same.same_info ∙ h)
  propose-keeps msg s w r (failed request e p asks built silent same) h =
      inl (ap (λ l. get l.contents empty_digest) same.same_info ∙ h)
  propose-keeps msg s w r (answered healthy a) h =
      elim (Bool-cases (record { inner = a.payload.block_hash } == empty_digest)) [
        | inl hit ↦
            let same =
              (digest_eqb_iff (record { inner = a.payload.block_hash }) empty_digest).0 hit in
            inr (hashes a.request w a.payload (ap (λ x. x.0) a.built) (ap (λ d. d.inner) same))
        | inr miss ↦ inl (ground (arith, a.recorded empty_digest, h))
      ]

  verify-keeps :
      (msg : Verify) (s : Actor) (w : W) (r : Bool × Actor × W)
      → Verification builder msg s w r
      → s.block_info.poisoned ≡ false
      → get s.block_info.contents empty_digest ≡ some info
      → (get r.1.block_info.contents empty_digest ≡ some info) ⊎ (msg.payload ≡ empty_digest)
  verify-keeps msg s w r (refused answer not_acceptable same) healthy h =
      inl (ap (λ l. get l.contents empty_digest) same.same_info ∙ h)
  verify-keeps msg s w r (accepted answer a) healthy h =
      elim (Bool-cases (msg.payload == empty_digest)) [
        | inl hit ↦ inr ((digest_eqb_iff msg.payload empty_digest).0 hit)
        | inr miss ↦ inl (ground (arith, a.recorded healthy empty_digest, h))
      ]

  step-keeps :
      (clock : Option ℕ) (msg : Message) (rest : List (Option ℕ × Message)) (s : Actor) (w : W)
      → s.block_info.poisoned ≡ false
      → get s.block_info.contents empty_digest ≡ some info
      → (get (step builder clock msg s w).0.block_info.contents empty_digest ≡ some info)
        ⊎ (AsksEmpty ((clock, msg) ∷ rest) ⊎ Zero)
  unfolding step
  step-keeps clock (propose p) rest s w healthy h =
      elim (propose-keeps p s w _ (handle_propose-Proposal builder clock p s w) h) [
        | inl kept ↦ inl kept
        | inr zero_hashed ↦ inr (inr zero_hashed)
      ]
  step-keeps clock (verify q) rest s w healthy h =
      elim (verify-keeps q s w _ (handle_verify-Verification builder q s w) healthy h) [
        | inl kept ↦ inl kept
        | inr empty ↦ inr (inl (now q empty))
      ]
  step-keeps clock (broadcast d) rest s w healthy h = inl h

  pub run-keeps :
      (msgs : List (Option ℕ × Message)) (s : Actor) (w : W)
      → s.block_info.poisoned ≡ false
      → get s.block_info.contents empty_digest ≡ some info
      → (get (run builder msgs s w).0.block_info.contents empty_digest ≡ some info)
        ⊎ (AsksEmpty msgs ⊎ Zero)
  unfolding run
  run-keeps [] s w healthy h = inl h
  run-keeps ((clock, msg) ∷ msgs) s w healthy h = elim (step-keeps clock msg msgs s w healthy h) [
    | inr replaced ↦ inr replaced
    | inl kept ↦
        let s' = (step builder clock msg s w).0 in
        let same = Change-info_lock builder s s' (step-Change builder clock msg s w) in
        elim (run-keeps msgs s' (step builder clock msg s w).1 (same ∙ healthy) kept) [
          | inl still ↦ inl still
          | inr (inl asked) ↦ inr (inl (later asked))
          | inr (inr zero_hashed) ↦ inr (inr zero_hashed)
        ]
  ]
