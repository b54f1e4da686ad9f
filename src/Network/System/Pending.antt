-- ===== src/Network/System/Pending.antt =====
-- What the actors have in hand while one of them waits for its proposal.
use allegro.Prelude.{
  ℕ, ◌≡◌, ◌≢◌, refl, sym, subst, arith, Bool-cases, inl, inr, nat_eqb, nat_eqb_iff, Option,
}
use allegro.Prelude.Dict.{get}
use allegro.Primitives.Digest.{Bytes, digest_eq}
use allegro.Consensus.Executor.{BuildPayloadRequest}
use allegro.Consensus.Application.{Propose, propose, propose_request}
use allegro.Node.Reth.{Engine, EthFormat, Jobs}
use allegro.Network.Waiting.{Busy, idle, proposing, verifying}
use allegro.Network.Waiting.Work.{BusyIsSound, begin_propose-IsSound}
use allegro.Network.Waiting.Keeps.{begin-SameStores}
use allegro.Network.System.{Transport, Net, put, begun, Step}
use allegro.Network.System.Timing.{SameStores-IsPrompt}
use allegro.Network.System.Asking.{InHand, IsPromptNode, Step-IsPromptNode, anything}

-- Any steps of the network while the actor of this node waits.
pub data Meanwhile {W B X N : Type 0} (eth : EthFormat B X) (engine : Engine W B X)
    (t : Transport N) (IsForeign : Bytes → Type 0) (GoesOn : W → W → Type 0) (i : ℕ)
    (from : Net W B N) : Net W B N → Type 0 where
  at_once : Meanwhile eth engine t IsForeign GoesOn i from from
  goes_on :
      {net net' : Net W B N}
      → Meanwhile eth engine t IsForeign GoesOn i from net
      → (net.nodes i).busy ≢ idle
      → Step eth engine t IsForeign GoesOn net net'
      → Meanwhile eth engine t IsForeign GoesOn i from net'

-- What the nodes have in hand while one node waits for its proposal: this one, nothing but that.
abbrev pub pending_proposal : {B : Type 0} → ℕ → Propose → BuildPayloadRequest → ℕ → InHand B
pending_proposal i p request k = record {
  asked = λ p' request'. k ≡ i → (p' ≡ p) × (request' ≡ request);
  judged = λ q block. k ≢ i;
}

module _ {W B X N : Type 0} (eth : EthFormat B X) (engine : Engine W B X) (jobs : Jobs eth engine)
    (t : Transport N) (IsForeign : Bytes → Type 0) where
  module _ (i : ℕ) (p : Propose) (request : BuildPayloadRequest) where
    -- Another node may have anything in hand.
    elsewhere :
        (k : ℕ) (busy : Busy B) (w : W)
        → k ≢ i
        → BusyIsSound eth engine jobs (λ p' r. Unit {0}) (λ q block. Unit {0}) busy w
        → BusyIsSound eth engine jobs
            (pending_proposal {B = B} i p request k).asked
            (pending_proposal {B = B} i p request k).judged
            busy
            w
    elsewhere k idle w ne h = tt
    elsewhere k (proposing p' r job) w ne (whole, any, sound) = (whole, (λ e. absurd (ne e)), sound)
    elsewhere k (verifying q block) w ne h = ne

    pub Meanwhile-IsPromptNode :
        {from net : Net W B N}
        → ((j : ℕ)
            → IsPromptNode eth engine jobs t IsForeign
                (pending_proposal i p request)
                j
                (from.nodes j))
        → Meanwhile eth engine t IsForeign jobs.GoesOn i from net
        → (j : ℕ)
        → IsPromptNode eth engine jobs t IsForeign (pending_proposal i p request) j (net.nodes j)
    Meanwhile-IsPromptNode h at_once = h
    Meanwhile-IsPromptNode h (goes_on {net} m waits st) =
        Step-IsPromptNode eth engine jobs t IsForeign (pending_proposal i p request) st
          (λ k free.
            let ne : k ≢ i = λ e. waits (subst (λ j. (net.nodes j).busy ≡ idle) e free) in
            ((λ p' r e. absurd (ne e)), (λ q block. ne)))
          (Meanwhile-IsPromptNode h m)

    -- The node has taken the message.
    pub begun-IsPromptNode :
        (before : Net W B N) (clock : Option ℕ)
        → ((j : ℕ) → IsPromptNode eth engine jobs t IsForeign anything j (before.nodes j))
        → request
          ≡ propose_request clock p (get (before.nodes i).actor.block_info.contents p.parent_digest)
        → (j : ℕ)
        → IsPromptNode eth engine jobs t IsForeign
            (pending_proposal i p request)
            j
            ((put before i (begun eth engine clock (propose p) (before.nodes i))).nodes j)
    begun-IsPromptNode before clock h asked j = elim (Bool-cases (nat_eqb i j)) [
      | inl hit ↦ rw hit (
          subst
            (λ k.
              IsPromptNode eth engine jobs t IsForeign (pending_proposal i p request) k
                (begun eth engine clock (propose p) (before.nodes i)))
            ((nat_eqb_iff i j).0 hit)
            (record {
              actor =
                  SameStores-IsPrompt (before.nodes i).actor _
                    (begin-SameStores eth clock (propose p) (before.nodes i).actor
                      (before.nodes i).tracker)
                    (h i).actor;
              work =
                  begin_propose-IsSound eth engine jobs
                    (pending_proposal {B = B} i p request i).asked
                    (pending_proposal {B = B} i p request i).judged clock p (before.nodes i).actor
                    (before.nodes i).tracker (before.nodes i).world (λ e. (refl, sym asked));
            }))
      | inr miss ↦ rw miss (record {
        actor = (h j).actor;
        work =
            elsewhere j (before.nodes j).busy (before.nodes j).world
              (λ e. absurd (ground (arith, miss, (nat_eqb_iff i j).1 (sym e)))) (h j).work;
      })
    ]
