-- ===== src/Network/System/Proposals.antt =====
-- A proposal follows its parent and its clock, whatever happened while the node waited.
use allegro.Prelude.{ℕ, ◌/◌, ◌≤◌, ◌≡◌, refl, sym, subst, some, ok, u64_max, arith}
use allegro.Prelude.Dict.{get}
use allegro.Primitives.Digest.{Bytes, B256, digest_eq}
use allegro.Consensus.Executor.{
  BuiltPayload, BuildPayloadRequest, build_payload_attributes_from_request,
}
use allegro.Consensus.Application.{
  Actor, Propose, propose, proposed_info, built_digest, new_actor, propose_request,
}
use allegro.Consensus.Application.Proposing.{Asks, propose_request-Asks}
use allegro.Consensus.Engine.{Commonware, EngineConfig, start_actor}
use allegro.Consensus.Engine.Starting.{start_actor-AllTimed}
use allegro.Node.BeaconConsensus.{validate_payload_attributes_against_header}
use allegro.Node.Builder.Agreement.{Builds, seconds_kept}
use allegro.Node.Builder.Stepwise.{Job, finished, build_step}
use allegro.Node.Reth.{Engine, EthFormat, Jobs}
use allegro.Network.Waiting.{idle, proposing, resume}
use allegro.Network.Waiting.Work.{BusyIsSound, JobIsSound, build_step-IsSound}
use allegro.Network.System.{Transport, Net, Node, put, begun, resumed, Reach}
use allegro.Network.System.Consistency.{Starts}
use allegro.Network.System.Timing.{IsPrompt, finished_known}
use allegro.Network.System.Pending.{
  Meanwhile, pending_proposal, Meanwhile-IsPromptNode, begun-IsPromptNode,
}
use allegro.Network.System.Asking.{
  seconds_of, request_follows, IsPromptNode, anything, Reach-IsPromptNode,
}

-- What the last answer for a proposal leaves, and what it is to the parent and the clock.
pub record Follows (before after : Actor) (millis : ℕ) (p : Propose) (request : BuildPayloadRequest)
    (payload : BuiltPayload) : Type 0 where
  pub recorded :
      get after.block_info.contents (record { inner = payload.block_hash })
      ≡ some (record {
        number = payload.block_number;
        hash = payload.block_hash;
        view = p.round.view;
        proposer = p.leader;
        timestamp = payload.timestamp_millis / 1000;
        timestamp_millis = payload.timestamp_millis;
      })
  pub asks : Asks p before request
  pub after_clock : millis / 1000 ≤ payload.timestamp_millis / 1000
  pub after_parent :
      seconds_of (get before.block_info.contents p.parent_digest) ≤ payload.timestamp_millis / 1000
  pub attributes_accepted :
      validate_payload_attributes_against_header
        (build_payload_attributes_from_request request).1
        (seconds_of (get before.block_info.contents p.parent_digest))
      ≡ ok tt

module _ {W B X N : Type 0} (eth : EthFormat B X) (engine : Engine W B X) (jobs : Jobs eth engine)
    (t : Transport N) (IsForeign : Bytes → Type 0) where
  follows :
      (before : Actor) (n : Node W B) (millis : ℕ) (p : Propose) (request : BuildPayloadRequest)
      (job : Job B) (payload : BuiltPayload)
      → millis ≤ u64_max
      → request ≡ propose_request (some millis) p (get before.block_info.contents p.parent_digest)
      → IsPrompt before
      → IsPrompt n.actor
      → request.timestamp ≤ u64_max / 1000
      → Builds eth request payload
      → n.busy ≡ proposing p request job
      → (build_step eth engine job n.world).0 ≡ finished (ok payload)
      → Follows before (resumed eth engine n).actor millis p request payload
  follows before n millis p request job payload fits asked prompt now range builds busy last =
      let parent = get before.block_info.contents p.parent_digest in
      let (clocked, after, accepted) =
        request_follows (some millis) p parent (λ b e. prompt.timed.at p.parent_digest b e) in
      let whole = (seconds_kept eth request payload builds range).0 in
      let known =
        subst
          (λ b.
            get (resume eth engine b n.actor n.world).1.block_info.contents (built_digest payload)
            ≡ some (proposed_info p request payload))
          (sym busy)
          (finished_known eth engine jobs p request job payload n.actor n.world last now.infos) in
      record {
        recorded = ground (arith, known, whole);
        asks = subst (Asks p before) (sym asked) (propose_request-Asks (some millis) p before);
        after_clock = ground (arith, clocked, asked, whole, fits);
        after_parent = ground (arith, after, asked, whole);
        attributes_accepted =
            subst
              (λ r.
                validate_payload_attributes_against_header
                  (build_payload_attributes_from_request r).1 (seconds_of parent)
                ≡ ok tt)
              (sym asked) accepted;
      }

  module _ {K S C : Type 0} (start : Net W B N) (cw : Commonware K S)
      (config : ℕ → EngineConfig K C) (genesis_hash : B256) where
    start_actor-IsPrompt :
        (i : ℕ)
        → (config i).genesis_timestamp_millis / 1000 ≡ (config i).genesis_timestamp
        → (config i).genesis_timestamp_millis ≤ u64_max
        → IsPrompt (start_actor cw (config i))
    unfolding start_actor new_actor
    start_actor-IsPrompt i seconds fits = record {
      infos = refl;
      pending = refl;
      timed = start_actor-AllTimed cw (config i) seconds fits;
    }

    -- In a network of any number of nodes that start on one genesis block, with a genesis time in
    -- whole seconds whose milliseconds fit in 64 bits, and run this code, and of others that send
    -- any messages at all: an idle node takes a request to propose, at a clock reading in 64 bits,
    -- and then anything happens in the network while it waits. If it is then at a build whose last
    -- answer gives a payload, with that answer it knows the block under the digest of its hash,
    -- with the payload's number, hash and milliseconds, their seconds, and the view and leader of
    -- that request. It asked for the parent that it knew when it took the request; the block's
    -- seconds are not before the clock's then, nor before that parent's, where an unknown parent
    -- counts as second 0; and the payload attributes that it asked for pass the engine validator's
    -- timestamp check against that parent's seconds. Payload jobs keep the seconds that they were
    -- started with.
    pub proposals_follow_parents :
        Starts cw config t genesis_hash start
        → ((i : ℕ) → (config i).genesis_timestamp_millis / 1000 ≡ (config i).genesis_timestamp)
        → ((i : ℕ) → (config i).genesis_timestamp_millis ≤ u64_max)
        → (before : Net W B N) → Reach eth engine t IsForeign jobs.GoesOn start before
        → (i millis : ℕ) (p : Propose) → (before.nodes i).busy ≡ idle
        → millis ≤ u64_max
        → (net : Net W B N)
        → Meanwhile eth engine t IsForeign jobs.GoesOn i
            (put before i (begun eth engine (some millis) (propose p) (before.nodes i)))
            net
        → (p' : Propose) (request : BuildPayloadRequest) (job : Job B) (payload : BuiltPayload)
        → (net.nodes i).busy ≡ proposing p' request job
        → (build_step eth engine job (net.nodes i).world).0 ≡ finished (ok payload)
        → Follows
            (before.nodes i).actor
            (resumed eth engine (net.nodes i)).actor
            millis
            p
            request
            payload
    proposals_follow_parents s seconds fits before r i millis p free clock net m p' request job
          payload busy last =
        let begins : (j : ℕ) → IsPromptNode eth engine jobs t IsForeign anything j (start.nodes j) =
          λ j. record {
            actor = rw (s.actors j) (start_actor-IsPrompt j (seconds j) (fits j));
            work = rw (s.at_rest j) tt;
          } in
        let h = Reach-IsPromptNode eth engine jobs t IsForeign start begins r in
        let asked =
          propose_request (some millis) p
            (get (before.nodes i).actor.block_info.contents p.parent_digest) in
        let k =
          Meanwhile-IsPromptNode eth engine jobs t IsForeign i p asked
            (begun-IsPromptNode eth engine jobs t IsForeign i p asked before (some millis) h refl)
            m in
        let (whole, pinned, sound) =
          subst
            (λ b.
              BusyIsSound eth engine jobs (pending_proposal {B = B} i p asked i).asked
                (pending_proposal {B = B} i p asked i).judged b (net.nodes i).world)
            busy (k i).work in
        let (same, same_request) = pinned refl in
        let builds : Builds eth request payload =
          subst
            (λ j.
              JobIsSound eth engine jobs request j
                (build_step eth engine job (net.nodes i).world).1)
            last (build_step-IsSound eth engine jobs request job (net.nodes i).world sound) in
        follows (before.nodes i).actor (net.nodes i) millis p request job payload clock same_request
          (h i).actor (k i).actor (ground (arith, whole)) builds
          (subst (λ q. (net.nodes i).busy ≡ proposing q request job) same busy) last
