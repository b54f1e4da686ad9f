-- ===== src/Network/System.antt =====
-- A network of nodes that run this code, and of others, as a step relation: the actor and the relay of
-- crates/consensus/src/application.rs and engine.rs and the finalizer of crates/node/src/finalizer.rs
-- on each node, over a transport that may lose, repeat, delay and reorder what was sent.
pub mod Binding
pub mod Wires
pub mod Preserved
pub mod Atomic
pub mod Stability
pub mod Consistency
pub mod Memory
pub mod Timing
pub mod Asking
pub mod Pending
pub mod Proposals
use allegro.Prelude.{ℕ, ◌≡◌, Bool, List, [], ◌∷◌, Option, none, some, nat_eqb, if◌then◌else◌, ◌⊎◌}
use allegro.Primitives.Digest.{Bytes, Digest, PublicKey}
use allegro.Consensus.Plan.{Plan, Recipients}
use allegro.Consensus.Metrics.{Metrics}
use allegro.Consensus.Application.{Actor, BlockInfo, Message, step}
use allegro.Consensus.Relay.{Sender, Received, message, failure, receive, relay_broadcast}
use allegro.Node.Reth.{Engine, EthFormat}
use allegro.Node.Builder.{Tracker}
use allegro.Node.Finalizer.{finalize, submit}
use allegro.Node.Finalizer.Stepwise.{look_up}
use allegro.Network.{engine_builder}
use allegro.Network.Waiting.{Busy, idle, begin, resume}

pub data Among {A : Type 0} (a : A) : List A → Type 0 where
  first : {rest : List A} → Among a (a ∷ rest)
  later : {b : A} {rest : List A} → Among a rest → Among a (b ∷ rest)

-- The transport: what can be delivered at some time is what was sent at some time.
pub record Transport (N : Type 0) : Type 0 where
  pub sender : Sender N
  pub carried : N → List Bytes
  pub check_keeps :
      (recipients : Recipients) (n : N) (m : Bytes)
      → Among m (carried (sender.check recipients n).1)
      → Among m (carried n)
  pub send_adds :
      (recipients : List PublicKey) (msg : Bytes) (priority : Bool) (n : N) (m : Bytes)
      → Among m (carried (sender.send recipients msg priority n).1)
      → (m ≡ msg) ⊎ Among m (carried n)

-- One node: the actor with its stores, and what it is at, the block for which the finalizer waits,
-- the builder's tracker, and the execution layer.
pub record Node (W B : Type 0) : Type 0 where
  pub actor : Actor
  pub busy : Busy B
  pub finalizing : Option BlockInfo
  pub tracker : Tracker
  pub world : W

pub record Net (W B N : Type 0) : Type 0 where
  pub nodes : ℕ → Node W B
  pub transport : N

-- The network with a new node at this index.
abbrev pub put : {W B N : Type 0} → Net W B N → ℕ → Node W B → Net W B N
put net i node = record net { nodes = λ j. if nat_eqb i j then node else net.nodes j }

module _ {W B X : Type 0} (eth : EthFormat B X) (engine : Engine W B X) where
  -- The actor of a node handles one message, with nothing in between.
  abbrev pub handled : Option ℕ → Message → Node W B → Node W B
  handled clock msg n =
      let (actor, (tracker, world)) =
        step (engine_builder eth engine) clock msg n.actor (n.tracker, n.world) in
      record n { actor = actor; busy = idle; tracker = tracker; world = world }

  -- The actor of a node takes a message, up to its first wait.
  abbrev pub begun : Option ℕ → Message → Node W B → Node W B
  begun clock msg n =
      let (busy, actor) = begin eth clock msg n.actor n.tracker in
      record n { actor = actor; busy = busy }

  -- What the actor of a node waits for comes.
  abbrev pub resumed : Node W B → Node W B
  resumed n =
      let (busy, actor, world) = resume eth engine n.busy n.actor n.world in
      record n { actor = actor; busy = busy; world = world }

  -- The finalizer of a node handles one digest, with nothing in between.
  abbrev pub finalized : Digest → Node W B → Node W B
  finalized d n =
      let (tracker, world) = finalize engine d n.actor.block_info n.tracker n.world in
      record n { finalizing = none; tracker = tracker; world = world }

  -- The finalizer of a node takes one digest, up to its wait.
  abbrev pub looking_up : Digest → Node W B → Node W B
  looking_up d n = record n { finalizing = look_up d n.actor.block_info }

  -- What the finalizer of a node waits for comes.
  abbrev pub settled : Node W B → Node W B
  settled n =
      let (tracker, world) = submit engine n.finalizing n.tracker n.world in
      record n { finalizing = none; tracker = tracker; world = world }

abbrev pub set_metrics : {W B : Type 0} → Option Metrics → Node W B → Node W B
set_metrics metrics n = record n { actor = record n.actor { metrics = metrics } }

-- The receiver of a node takes what came.
abbrev pub received : {W B : Type 0} → Received → Node W B → Node W B
received r n =
    let (blocks, metrics) = receive r n.actor.received_blocks n.actor.metrics in
    record n { actor = record n.actor { received_blocks = blocks; metrics = metrics } }

module _ {W B X N : Type 0} (eth : EthFormat B X) (engine : Engine W B X) (t : Transport N)
    (IsForeign : Bytes → Type 0) (GoesOn : W → W → Type 0) where
  -- What can happen next: which node, which message and which digest, is not restricted. An actor
  -- takes a message, and a finalizer a digest, when it waits for nothing; while it waits, everything
  -- else can happen. From nodes that do
  -- not run this code, under any key, any foreign message can come. The execution layer goes on by
  -- itself.
  pub data Step (net : Net W B N) : Net W B N → Type 0 where
    take_message :
        (i : ℕ) (clock : Option ℕ) (msg : Message)
        → (net.nodes i).busy ≡ idle
        → Step net (put net i (begun eth engine clock msg (net.nodes i)))
    answer : (i : ℕ) → Step net (put net i (resumed eth engine (net.nodes i)))
    execute :
        (i : ℕ) (w : W)
        → GoesOn (net.nodes i).world w
        → Step net (put net i (record (net.nodes i) { world = w }))
    relay :
        (i : ℕ) (d : Digest) (plan : Plan) (metrics : Option Metrics) (n : N)
        → (let a = (net.nodes i).actor in
            relay_broadcast t.sender d plan a.pending_blocks a.metrics net.transport
            ≡ some (metrics, n))
        → Step net (record (put net i (set_metrics metrics (net.nodes i))) { transport = n })
    deliver :
        (i : ℕ) (from : PublicKey) (m : Bytes)
        → Among m (t.carried net.transport)
        → Step net (put net i (received (message from m) (net.nodes i)))
    intrude :
        (i : ℕ) (from : PublicKey) (m : Bytes)
        → IsForeign m
        → Step net (put net i (received (message from m) (net.nodes i)))
    disturb : (i : ℕ) → Step net (put net i (received failure (net.nodes i)))
    take_digest :
        (i : ℕ) (d : Digest)
        → (net.nodes i).finalizing ≡ none
        → Step net (put net i (looking_up eth engine d (net.nodes i)))
    track : (i : ℕ) → Step net (put net i (settled eth engine (net.nodes i)))

  pub data Reach (start : Net W B N) : Net W B N → Type 0 where
    here : Reach start start
    next : {net net' : Net W B N} → Reach start net → Step net net' → Reach start net'
