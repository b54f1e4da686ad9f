-- ===== src/Network/System/Atomic.antt =====
-- To handle a message in one go is one of the things that can happen in the network.
use mathlib.Core.Path.{fun_ext}
use allegro.Prelude.{
  ℕ, zero, suc, ◌≡◌, refl, sym, ap, ◌∙◌, subst, Option, none, Bool, true, false, nat_eqb,
  nat_eqb_refl, arith, if◌then◌else◌,
}
use allegro.Primitives.Digest.{Bytes, Digest}
use allegro.Consensus.Application.{
  Actor, Message, propose, verify, broadcast, step, handle_propose, handle_verify, verify_bytes,
}
use allegro.Node.Reth.{Engine, EthFormat}
use allegro.Node.Builder.{Tracker, create_engine_payload_builder}
use allegro.Node.Finalizer.Stepwise.{submit-look_up}
use allegro.Network.{engine_builder}
use allegro.Network.Waiting.{Busy, idle}
use allegro.Network.Waiting.Whole.{resumes, resumes-begin}
use allegro.Network.System.{
  Transport, Node, Net, put, begun, resumed, handled, finalized, looking_up, settled, take_message,
  answer, take_digest, track, Reach, next,
}

if_if :
    {A : Type 0} (c : Bool) (b a z : A)
    → (if c then b else (if c then a else z)) ≡ (if c then b else z)
if_if true b a z = refl
if_if false b a z = refl

put-put :
    {W B N : Type 0} (net : Net W B N) (i : ℕ) (a b : Node W B)
    → put (put net i a) i b ≡ put net i b
put-put net i a b =
    ap (λ nodes. record net { nodes = nodes })
      (fun_ext (λ j. if_if (nat_eqb i j) b a (net.nodes j)))

put_self : {W B N : Type 0} (net : Net W B N) (i : ℕ) (a : Node W B) → (put net i a).nodes i ≡ a
put_self net i a = rw (nat_eqb_refl i) refl

-- The node with this actor and execution layer.
abbrev pub placed : {W B : Type 0} → Node W B → Busy B × Actor × W → Node W B
placed n (busy, actor, world) = record n { actor = actor; busy = busy; world = world }

module _ {W B X N : Type 0} (eth : EthFormat B X) (engine : Engine W B X) (t : Transport N)
    (IsForeign : Bytes → Type 0) (GoesOn : W → W → Type 0) where
  -- The actor leaves the tracker as it is.
  step-tracker :
      (clock : Option ℕ) (msg : Message) (a : Actor) (t : Tracker) (w : W)
      → (step (engine_builder eth engine) clock msg a (t, w)).1.0 ≡ t
  unfolding step handle_propose handle_verify verify_bytes create_engine_payload_builder
  step-tracker clock (propose msg) a t w = ground arith
  step-tracker clock (verify msg) a t w = ground arith
  step-tracker clock (broadcast msg) a t w = refl

  -- Some answers, one after the other.
  pub Reach-resumes :
      (start net : Net W B N) (i n : ℕ) (x : Node W B)
      → Reach eth engine t IsForeign GoesOn start (put net i x)
      → Reach eth engine t IsForeign GoesOn start
          (put net i (placed x (resumes eth engine n (x.busy, x.actor, x.world))))
  unfolding resumes
  Reach-resumes start net i zero x r = r
  Reach-resumes start net i (suc n) x r = Reach-resumes start net i n (resumed eth engine x) (
      subst (Reach eth engine t IsForeign GoesOn start)
        (put-put net i x (resumed eth engine ((put net i x).nodes i))
          ∙ ap (λ y. put net i (resumed eth engine y)) (put_self net i x))
        (next r (answer i)))

  -- A message is handled in one go.
  pub Reach-handled :
      (start net : Net W B N) (i : ℕ) (clock : Option ℕ) (msg : Message)
      → Reach eth engine t IsForeign GoesOn start net
      → (net.nodes i).busy ≡ idle
      → Reach eth engine t IsForeign GoesOn start
          (put net i (handled eth engine clock msg (net.nodes i)))
  Reach-handled start net i clock msg r free =
      let n = net.nodes i in
      let x = begun eth engine clock msg n in
      subst (λ y. Reach eth engine t IsForeign GoesOn start (put net i y))
        (ap (placed x) (resumes-begin eth engine clock msg n.actor n.tracker n.world)
          ∙ ap (λ tracker. record (handled eth engine clock msg n) { tracker = tracker })
              (sym (step-tracker clock msg n.actor n.tracker n.world)))
        (Reach-resumes start net i 8 x (next r (take_message i clock msg free)))

  -- A digest is finalized in one go.
  pub Reach-finalized :
      (start net : Net W B N) (i : ℕ) (d : Digest)
      → Reach eth engine t IsForeign GoesOn start net
      → (net.nodes i).finalizing ≡ none
      → Reach eth engine t IsForeign GoesOn start (put net i (finalized eth engine d (net.nodes i)))
  Reach-finalized start net i d r free =
      let n = net.nodes i in
      let x = looking_up eth engine d n in
      subst (Reach eth engine t IsForeign GoesOn start)
        (put-put net i x (settled eth engine ((put net i x).nodes i))
          ∙ ap (λ y. put net i (settled eth engine y)) (put_self net i x)
          ∙ ap (λ r. put net i (record n { finalizing = none; tracker = r.0; world = r.1 }))
              (submit-look_up engine d n.actor.block_info n.tracker n.world))
        (next (next r (take_digest i d free)) (track i))
