-- ===== src/Network/System/Preserved.antt =====
-- What every step of the network keeps: each node knows blocks by what they are.
use allegro.Prelude.{ℕ, ◌≡◌, Option, some, arith, inl, inr, Bool-cases, nat_eqb}
use allegro.Prelude.Dict.{Everywhere}
use allegro.Primitives.Digest.{Bytes, B256, Digest, digest_eq}
use allegro.Consensus.Metrics.{Metrics}
use allegro.Consensus.Application.{BlockInfo, Message}
use allegro.Consensus.Relay.{Received, message, failure, receive}
use allegro.Node.Reth.{Engine, EthFormat, Decodes, Jobs, Hashes}
use allegro.Node.Builder.{Tracker, new_tracker}
use allegro.Node.Finalizer.Stepwise.{look_up-known, submit-cases, submit_keeps_jobs}
use allegro.Network.Waiting.Work.{BusyIsSound, BusyIsSound-kept, begin-IsSound}
use allegro.Network.Waiting.Keeps.{begin-SameStores, resume-keeps}
use allegro.Network.System.{
  Among, Transport, Node, Net, put, begun, resumed, looking_up, settled, set_metrics, received,
  Step, take_message, answer, execute, relay, deliver, intrude, disturb, take_digest, track, Reach,
  here, next,
}
use allegro.Network.System.Wires.{Unforged, wire-Unforged, receive-Stands, relay_broadcast-carried}
use allegro.Network.System.Binding.{
  Stands, IsBound, AnyRequest, NamedBy, SameStores-IsBound, IsBound-IsKept, found-NamedBy,
}

-- The tracker is at the genesis block, or at a block.
pub data Tracks {B X : Type 0} (eth : EthFormat B X) (genesis_hash : B256) (t : Tracker)
    : Type 0 where
  at_genesis : t ≡ new_tracker genesis_hash → Tracks eth genesis_hash t
  at_block :
      (block : B) → t ≡ (eth.header_hash block, eth.header_number block) → Tracks eth genesis_hash t

-- What holds of every network that was started and ran.
pub record NodeIsBound {W B X : Type 0} (eth : EthFormat B X) (engine : Engine W B X)
    (jobs : Jobs eth engine) (genesis_hash : B256) (n : Node W B) : Type 0 where
  pub actor : IsBound eth genesis_hash n.actor
  pub work : BusyIsSound eth engine jobs AnyRequest (NamedBy eth) n.busy n.world
  pub tracks : Tracks eth genesis_hash n.tracker
  pub final :
      (info : BlockInfo)
      → n.finalizing ≡ some info
      → Tracks eth genesis_hash (info.hash, info.number)

pub record NetIsBound {W B X N : Type 0} (eth : EthFormat B X) (engine : Engine W B X)
    (jobs : Jobs eth engine) (genesis_hash : B256) (t : Transport N) (net : Net W B N)
    : Type 0 where
  pub nodes : (i : ℕ) → NodeIsBound eth engine jobs genesis_hash (net.nodes i)
  pub wires : (m : Bytes) → Among m (t.carried net.transport) → Unforged eth m

module _ {W B X N : Type 0} (eth : EthFormat B X) (engine : Engine W B X) (t : Transport N)
    (jobs : Jobs eth engine) (genesis_hash : B256) (decodes : Decodes eth) (hashes : Hashes eth)
    (IsForeign : Bytes → Type 0) (unforged : (m : Bytes) → IsForeign m → Unforged eth m) where
  put-NetIsBound :
      (net : Net W B N) (i : ℕ) (n : Node W B)
      → NetIsBound eth engine jobs genesis_hash t net
      → NodeIsBound eth engine jobs genesis_hash n
      → NetIsBound eth engine jobs genesis_hash t (put net i n)
  put-NetIsBound net i n h k = record {
    nodes = λ j. elim (Bool-cases (nat_eqb i j)) [
      | inl hit ↦ rw hit k
      | inr miss ↦ rw miss (h.nodes j)
    ];
    wires = h.wires;
  }

  begun-NodeIsBound :
      (clock : Option ℕ) (msg : Message) (n : Node W B)
      → NodeIsBound eth engine jobs genesis_hash n
      → NodeIsBound eth engine jobs genesis_hash (begun eth engine clock msg n)
  begun-NodeIsBound clock msg n h = record {
    actor =
        SameStores-IsBound eth engine genesis_hash n.actor _
          (begin-SameStores eth clock msg n.actor n.tracker) h.actor;
    work =
        begin-IsSound eth engine jobs AnyRequest (NamedBy eth) clock msg n.actor n.tracker n.world
          (found-NamedBy eth engine genesis_hash decodes n.actor h.actor) (λ p. tt);
    tracks = h.tracks;
    final = h.final;
  }

  resumed-NodeIsBound :
      (n : Node W B)
      → NodeIsBound eth engine jobs genesis_hash n
      → NodeIsBound eth engine jobs genesis_hash (resumed eth engine n)
  resumed-NodeIsBound n h =
      let (actor, work) =
        resume-keeps eth engine jobs AnyRequest (NamedBy eth) (IsBound eth genesis_hash)
          (IsBound-IsKept eth engine genesis_hash jobs) n.busy n.actor n.world h.work h.actor in
      record { actor = actor; work = work; tracks = h.tracks; final = h.final }

  looking_up-NodeIsBound :
      (d : Digest) (n : Node W B)
      → NodeIsBound eth engine jobs genesis_hash n
      → NodeIsBound eth engine jobs genesis_hash (looking_up eth engine d n)
  looking_up-NodeIsBound d n h = record {
    actor = h.actor;
    work = h.work;
    tracks = h.tracks;
    final = λ info found.
        elim (h.actor.infos.at d info (look_up-known d n.actor.block_info info found)) [
          | inl (empty, hash, number) ↦ at_genesis (ground (arith, hash, number))
          | inr e ↦ at_block e.block (ground (arith, e.hash_eq, e.number_eq))
        ];
  }

  settled-NodeIsBound :
      (n : Node W B)
      → NodeIsBound eth engine jobs genesis_hash n
      → NodeIsBound eth engine jobs genesis_hash (settled eth engine n)
  settled-NodeIsBound n h = record {
    actor = h.actor;
    work =
        BusyIsSound-kept eth engine jobs AnyRequest (NamedBy eth) n.busy n.world _
          (submit_keeps_jobs eth engine jobs n.finalizing n.tracker n.world) h.work;
    tracks = elim (submit-cases engine n.finalizing n.tracker n.world) [
      | inl same ↦ rw same h.tracks
      | inr (info, found, moved) ↦ rw moved (h.final info found)
    ];
    final = λ info found. cc;
  }

  received-NodeIsBound :
      (r : Received) (n : Node W B)
      → NodeIsBound eth engine jobs genesis_hash n
      → Everywhere (Stands eth) (received r n).actor.received_blocks.contents
      → NodeIsBound eth engine jobs genesis_hash (received r n)
  received-NodeIsBound r n h k = record {
    actor = record { pending = h.actor.pending; received = k; infos = h.actor.infos };
    work = h.work;
    tracks = h.tracks;
    final = h.final;
  }

  set_metrics-NodeIsBound :
      (metrics : Option Metrics) (n : Node W B)
      → NodeIsBound eth engine jobs genesis_hash n
      → NodeIsBound eth engine jobs genesis_hash (set_metrics metrics n)
  set_metrics-NodeIsBound metrics n h = record {
    actor = record {
      pending = h.actor.pending;
      received = h.actor.received;
      infos = h.actor.infos;
    };
    work = h.work;
    tracks = h.tracks;
    final = h.final;
  }

  pub Step-NetIsBound :
      {net net' : Net W B N}
      → Step eth engine t IsForeign jobs.GoesOn net net'
      → NetIsBound eth engine jobs genesis_hash t net
      → NetIsBound eth engine jobs genesis_hash t net'
  unfolding receive
  Step-NetIsBound {net} (take_message i clock msg free) h =
      put-NetIsBound net i _ h (begun-NodeIsBound clock msg (net.nodes i) (h.nodes i))
  Step-NetIsBound {net} (answer i) h =
      put-NetIsBound net i _ h (resumed-NodeIsBound (net.nodes i) (h.nodes i))
  Step-NetIsBound {net} (execute i w on) h = put-NetIsBound net i _ h (record {
    actor = (h.nodes i).actor;
    work =
        BusyIsSound-kept eth engine jobs AnyRequest (NamedBy eth) (net.nodes i).busy
          (net.nodes i).world w (λ id seconds. jobs.kept_alone (net.nodes i).world w id seconds on)
          (h.nodes i).work;
    tracks = (h.nodes i).tracks;
    final = (h.nodes i).final;
  })
  Step-NetIsBound {net} (take_digest i d free) h =
      put-NetIsBound net i _ h (looking_up-NodeIsBound d (net.nodes i) (h.nodes i))
  Step-NetIsBound {net} (track i) h =
      put-NetIsBound net i _ h (settled-NodeIsBound (net.nodes i) (h.nodes i))
  Step-NetIsBound {net} (disturb i) h =
      put-NetIsBound net i _ h
        (received-NodeIsBound failure (net.nodes i) (h.nodes i) (h.nodes i).actor.received)
  Step-NetIsBound {net} (deliver i from m there) h = put-NetIsBound net i _ h (
      received-NodeIsBound (message from m) (net.nodes i) (h.nodes i) (
        receive-Stands eth from m (net.nodes i).actor.received_blocks (net.nodes i).actor.metrics
          (h.wires m there) (h.nodes i).actor.received))
  Step-NetIsBound {net} (intrude i from m it) h = put-NetIsBound net i _ h (
      received-NodeIsBound (message from m) (net.nodes i) (h.nodes i) (
        receive-Stands eth from m (net.nodes i).actor.received_blocks (net.nodes i).actor.metrics
          (unforged m it) (h.nodes i).actor.received))
  Step-NetIsBound {net} (relay i d plan metrics n sent) h =
      let a = (net.nodes i).actor in
      record {
        nodes =
            (put-NetIsBound net i _ h
              (set_metrics-NodeIsBound metrics (net.nodes i) (h.nodes i))).nodes;
        wires = λ m there.
            elim (relay_broadcast-carried t d plan a.pending_blocks a.metrics metrics net.transport
              n m sent there) [
                | inl (bytes, own, wired) ↦ rw wired (
                    wire-Unforged eth decodes hashes d bytes
                      ((h.nodes i).actor.pending.at d bytes own))
                | inr old ↦ h.wires m old
              ];
      }

  pub Reach-NetIsBound :
      {start net : Net W B N}
      → NetIsBound eth engine jobs genesis_hash t start
      → Reach eth engine t IsForeign jobs.GoesOn start net
      → NetIsBound eth engine jobs genesis_hash t net
  Reach-NetIsBound h here = h
  Reach-NetIsBound h (next r st) = Step-NetIsBound st (Reach-NetIsBound h r)
