-- ===== src/Network/System/Asking.antt =====
-- What the actors of a network have in hand, in every step of the network.
use allegro.Prelude.{
  ℕ, ◌/◌, ◌≤◌, ◌≡◌, refl, subst, Option, none, some, ok, arith, inl, inr, Bool-cases, nat_eqb,
  nat_eqb_iff,
}
use allegro.Primitives.Digest.{Bytes, digest_eq}
use allegro.Consensus.Executor.{
  BuildPayloadRequest, build_payload_attributes, build_payload_attributes_from_request,
}
use allegro.Consensus.Application.{BlockInfo, Propose, Verify, propose_request, now_millis}
use allegro.Consensus.Application.Proposing.{IsTimed, propose_request_times}
use allegro.Node.BeaconConsensus.{validate_payload_attributes_against_header}
use allegro.Node.Finalizer.Stepwise.{submit_keeps_jobs}
use allegro.Node.Reth.{Engine, EthFormat, Jobs}
use allegro.Network.Waiting.{idle}
use allegro.Network.Waiting.Work.{BusyIsSound, BusyIsSound-kept, begin-IsSound}
use allegro.Network.Waiting.Keeps.{begin-SameStores, resume-keeps}
use allegro.Network.System.{
  Transport, Node, Net, put, Step, take_message, answer, execute, relay, deliver, intrude, disturb,
  take_digest, track, Reach, here, next,
}
use allegro.Network.System.Timing.{
  IsPrompt, SameStores-IsPrompt, received-IsPrompt, IsPrompt-IsKept,
}

-- The seconds of a parent that may be unknown.
abbrev pub seconds_of : Option BlockInfo → ℕ
seconds_of none = 0
seconds_of (some info) = info.timestamp

none_times :
    (clock : Option ℕ) (p : Propose)
    → now_millis clock / 1000 ≤ (propose_request clock p none).timestamp
unfolding propose_request
none_times clock p = ground arith

-- What a request is to the parent that it was made from.
pub request_follows :
    (clock : Option ℕ) (p : Propose) (parent : Option BlockInfo)
    → ((b : BlockInfo) → parent ≡ some b → IsTimed b)
    → let request = propose_request clock p parent in
      (now_millis clock / 1000 ≤ request.timestamp)
      × (seconds_of parent ≤ request.timestamp)
      × (validate_payload_attributes_against_header
            (build_payload_attributes_from_request request).1
            (seconds_of parent)
          ≡ ok tt)
unfolding validate_payload_attributes_against_header build_payload_attributes_from_request
    build_payload_attributes
request_follows clock p none timed = (ground (arith, none_times clock p), omega arith, ground arith)
request_follows clock p (some b) timed =
    let asked = propose_request_times clock p b (timed b refl) in
    (ground (arith, asked), ground (arith, asked), ground (arith, asked))

-- What holds of the proposals, and of the blocks, that the actor of a node has in hand.
pub record InHand (B : Type 0) : Type 1 where
  pub asked : Propose → BuildPayloadRequest → Type 0
  pub judged : Verify → B → Type 0

module _ {W B X N : Type 0} (eth : EthFormat B X) (engine : Engine W B X) (jobs : Jobs eth engine)
    (t : Transport N) (IsForeign : Bytes → Type 0) (hand : ℕ → InHand B) where
  pub record IsPromptNode (i : ℕ) (n : Node W B) : Type 0 where
    pub actor : IsPrompt n.actor
    pub work : BusyIsSound eth engine jobs (hand i).asked (hand i).judged n.busy n.world

  put-IsPromptNode :
      (net : Net W B N) (i : ℕ) (n : Node W B)
      → ((j : ℕ) → IsPromptNode j (net.nodes j))
      → IsPromptNode i n
      → (j : ℕ) → IsPromptNode j ((put net i n).nodes j)
  put-IsPromptNode net i n h k j = elim (Bool-cases (nat_eqb i j)) [
    | inl hit ↦ rw hit (subst (λ x. IsPromptNode x n) ((nat_eqb_iff i j).0 hit) k)
    | inr miss ↦ rw miss (h j)
  ]

  -- If it holds of all that a node that waits for nothing may begin, it stays so.
  pub Step-IsPromptNode :
      {net net' : Net W B N}
      → Step eth engine t IsForeign jobs.GoesOn net net'
      → ((k : ℕ)
          → (net.nodes k).busy ≡ idle
          → ((p : Propose) (request : BuildPayloadRequest) → (hand k).asked p request)
            × ((q : Verify) (block : B) → (hand k).judged q block))
      → ((j : ℕ) → IsPromptNode j (net.nodes j))
      → (j : ℕ) → IsPromptNode j (net'.nodes j)
  Step-IsPromptNode {net} (take_message i clock msg free) begins h =
      let n = net.nodes i in
      put-IsPromptNode net i _ h (record {
        actor =
            SameStores-IsPrompt n.actor _ (begin-SameStores eth clock msg n.actor n.tracker)
              (h i).actor;
        work =
            begin-IsSound eth engine jobs (hand i).asked (hand i).judged clock msg n.actor n.tracker
              n.world (λ q bytes block found decoded. (begins i free).1 q block)
              (λ p. (begins i free).0 p _);
      })
  Step-IsPromptNode {net} (answer i) begins h =
      let n = net.nodes i in
      let (actor, work) =
        resume-keeps eth engine jobs (hand i).asked (hand i).judged IsPrompt
          (IsPrompt-IsKept eth engine jobs (hand i).asked (hand i).judged) n.busy n.actor n.world
          (h i).work (h i).actor in
      put-IsPromptNode net i _ h (record { actor = actor; work = work })
  Step-IsPromptNode {net} (execute i w on) begins h = put-IsPromptNode net i _ h (record {
    actor = (h i).actor;
    work =
        BusyIsSound-kept eth engine jobs (hand i).asked (hand i).judged (net.nodes i).busy
          (net.nodes i).world w (λ id seconds. jobs.kept_alone (net.nodes i).world w id seconds on)
          (h i).work;
  })
  Step-IsPromptNode {net} (relay i d plan metrics n sent) begins h =
      put-IsPromptNode net i _ h (record {
        actor =
            received-IsPrompt (net.nodes i).actor (net.nodes i).actor.received_blocks metrics
              (h i).actor;
        work = (h i).work;
      })
  Step-IsPromptNode {net} (deliver i from m there) begins h =
      put-IsPromptNode net i _ h (record {
        actor = received-IsPrompt (net.nodes i).actor _ _ (h i).actor;
        work = (h i).work;
      })
  Step-IsPromptNode {net} (intrude i from m it) begins h =
      put-IsPromptNode net i _ h (record {
        actor = received-IsPrompt (net.nodes i).actor _ _ (h i).actor;
        work = (h i).work;
      })
  Step-IsPromptNode {net} (disturb i) begins h =
      put-IsPromptNode net i _ h (record {
        actor = received-IsPrompt (net.nodes i).actor _ _ (h i).actor;
        work = (h i).work;
      })
  Step-IsPromptNode {net} (take_digest i d free) begins h =
      put-IsPromptNode net i _ h (record { actor = (h i).actor; work = (h i).work })
  Step-IsPromptNode {net} (track i) begins h = put-IsPromptNode net i _ h (record {
    actor = (h i).actor;
    work =
        BusyIsSound-kept eth engine jobs (hand i).asked (hand i).judged (net.nodes i).busy
          (net.nodes i).world _
          (submit_keeps_jobs eth engine jobs (net.nodes i).finalizing (net.nodes i).tracker
            (net.nodes i).world)
          (h i).work;
  })

-- Nothing is claimed of what is in hand.
abbrev pub anything : {B : Type 0} → ℕ → InHand B
anything i = record { asked = λ p request. Unit {0}; judged = λ q block. Unit {0} }

module _ {W B X N : Type 0} (eth : EthFormat B X) (engine : Engine W B X) (jobs : Jobs eth engine)
    (t : Transport N) (IsForeign : Bytes → Type 0) (start : Net W B N) where
  pub Reach-IsPromptNode :
      {net : Net W B N}
      → ((j : ℕ) → IsPromptNode eth engine jobs t IsForeign anything j (start.nodes j))
      → Reach eth engine t IsForeign jobs.GoesOn start net
      → (j : ℕ) → IsPromptNode eth engine jobs t IsForeign anything j (net.nodes j)
  Reach-IsPromptNode h here = h
  Reach-IsPromptNode h (next r st) =
      Step-IsPromptNode eth engine jobs t IsForeign anything st
        (λ k free. ((λ p request. tt), (λ q block. tt))) (Reach-IsPromptNode h r)
