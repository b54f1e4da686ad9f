-- ===== src/Network/System/Consistency.antt =====
-- Whatever happens in a network of nodes that run this code, they know each block alike.
use allegro.Prelude.{ℕ, ◌≡◌, ◌≢◌, sym, ap, ◌∙◌, subst, [], none, some, arith, inl, inr, Bool-cases}
use allegro.Prelude.Dict.{get, insert}
use allegro.Primitives.Digest.{Bytes, B256, Digest, empty_digest, digest_eq}
use allegro.Consensus.Application.{BlockInfo, new_actor}
use allegro.Consensus.Engine.{Commonware, EngineConfig, start_actor}
use allegro.Node.Reth.{Engine, EthFormat, Decodes, Jobs, Hashes}
use allegro.Node.Builder.{new_tracker}
use allegro.Network.Waiting.{idle}
use allegro.Network.System.{Among, Transport, Net, Reach}
use allegro.Network.System.Wires.{Unforged}
use allegro.Network.System.Binding.{IsBound}
use allegro.Network.System.Stability.{Describes-agree}
use allegro.Network.System.Preserved.{at_genesis, at_block, NetIsBound, Reach-NetIsBound}

-- Every node starts as `start_simplex_engine` and `run_consensus` start it, on one genesis block, and
-- nothing was sent.
pub record Starts {W B N K S C : Type 0} (cw : Commonware K S) (config : ℕ → EngineConfig K C)
    (t : Transport N) (genesis_hash : B256) (net : Net W B N) : Type 0 where
  pub actors : (i : ℕ) → (net.nodes i).actor ≡ start_actor cw (config i)
  pub one_genesis : (i : ℕ) → (config i).genesis_hash ≡ genesis_hash
  pub at_rest : (i : ℕ) → (net.nodes i).busy ≡ idle
  pub nothing_final : (i : ℕ) → (net.nodes i).finalizing ≡ none
  pub trackers : (i : ℕ) → (net.nodes i).tracker ≡ new_tracker genesis_hash
  pub quiet : t.carried net.transport ≡ []

module _ {W B X N K S C : Type 0} (eth : EthFormat B X) (engine : Engine W B X)
    (jobs : Jobs eth engine) (t : Transport N) (cw : Commonware K S) (config : ℕ → EngineConfig K C)
    (genesis_hash : B256) where
  start_actor-IsBound :
      (i : ℕ)
      → (config i).genesis_hash ≡ genesis_hash
      → IsBound eth genesis_hash (start_actor cw (config i))
  unfolding start_actor new_actor get insert
  start_actor-IsBound i e = record {
    pending = record { at = λ d bytes found. cc };
    received = record { at = λ d bytes found. cc };
    infos = record {
      at = λ d info found. elim (Bool-cases (digest_eq.same_key empty_digest d)) [
        | inl hit ↦
            inl (sym ((digest_eq.same_iff empty_digest d).0 hit), ground arith, ground arith)
        | inr miss ↦ absurd (ground arith)
      ];
    };
  }

  Among-nil : {m : Bytes} → Among m [] → Unforged eth m
  Among-nil x = elim x [ ]

  pub Starts-NetIsBound :
      (net : Net W B N)
      → Starts cw config t genesis_hash net
      → NetIsBound eth engine jobs genesis_hash t net
  Starts-NetIsBound net s = record {
    nodes = λ i. record {
      actor = rw (s.actors i) (start_actor-IsBound i (s.one_genesis i));
      work = rw (s.at_rest i) tt;
      tracks = at_genesis (s.trackers i);
      final = λ info found. let nothing = s.nothing_final i in cc;
    };
    wires = λ m there. Among-nil (subst (Among m) s.quiet there);
  }

  module _ (decodes : Decodes eth) (hashes : Hashes eth) (IsForeign : Bytes → Type 0)
      (unforged : (m : Bytes) → IsForeign m → Unforged eth m) where
    -- In a network of any number of nodes that start on one genesis block and run this code, and of
    -- others that send any messages in which no block stands under a digest that is not its hash,
    -- whatever messages the actors take and whatever answers they wait for, digests the relays
    -- broadcast, sent messages are delivered, lost, repeated or reordered, digests are finalized
    -- and execution layers go on, also while a handler or a finalizer waits: two nodes that run
    -- this code and know a block under one digest, other than the empty one, know it with the hash
    -- that the digest names and with equal numbers, seconds and milliseconds. Payload jobs keep the
    -- seconds that they were started with, encoded blocks decode, hashes have 32 bytes, and blocks
    -- of one hash have one number and one time.
    pub nodes_agree :
        (start net : Net W B N)
        → Starts cw config t genesis_hash start
        → Reach eth engine t IsForeign jobs.GoesOn start net
        → (i j : ℕ) (d : Digest) (p q : BlockInfo) → d ≢ empty_digest
        → get (net.nodes i).actor.block_info.contents d ≡ some p
        → get (net.nodes j).actor.block_info.contents d ≡ some q
        → (p.hash ≡ d.inner)
          × (q.hash ≡ d.inner)
          × (p.number ≡ q.number)
          × (p.timestamp ≡ q.timestamp)
          × (p.timestamp_millis ≡ q.timestamp_millis)
    nodes_agree start net s r i j d p q real known_p known_q =
        let h =
          Reach-NetIsBound eth engine t jobs genesis_hash decodes hashes IsForeign unforged
            (Starts-NetIsBound start s) r in
        elim ((h.nodes i).actor.infos.at d p known_p) [
          | inl (empty, _, _) ↦ absurd (real empty)
          | inr a ↦ elim ((h.nodes j).actor.infos.at d q known_q) [
            | inl (empty, _, _) ↦ absurd (real empty)
            | inr b ↦ Describes-agree eth hashes d p q a b
          ]
        ]

    -- In a network of any number of nodes that start on one genesis block and run this code, and of
    -- others that send any messages in which no block stands under a digest that is not its hash,
    -- whatever happens, also while a handler or a finalizer waits: two trackers of the last
    -- finalized block that are at one hash, other than the genesis hash, are at one number. Payload
    -- jobs keep the seconds that they were started with, encoded blocks decode, hashes have 32
    -- bytes, and blocks of one hash have one number and one time.
    pub trackers_agree :
        (start net : Net W B N)
        → Starts cw config t genesis_hash start
        → Reach eth engine t IsForeign jobs.GoesOn start net
        → (i j : ℕ) → (net.nodes i).tracker.0 ≢ genesis_hash
        → (net.nodes i).tracker.0 ≡ (net.nodes j).tracker.0
        → (net.nodes i).tracker.1 ≡ (net.nodes j).tracker.1
    trackers_agree start net s r i j moved same =
        let h =
          Reach-NetIsBound eth engine t jobs genesis_hash decodes hashes IsForeign unforged
            (Starts-NetIsBound start s) r in
        elim (h.nodes i).tracks [
          | at_genesis e ↦ absurd (moved (ap (λ x. x.0) e))
          | at_block a e ↦ elim (h.nodes j).tracks [
            | at_genesis f ↦ absurd (moved (same ∙ ap (λ x. x.0) f))
            | at_block b f ↦
                let one = hashes.distinct a b (sym (ap (λ x. x.0) e) ∙ same ∙ ap (λ x. x.0) f) in
                ap (λ x. x.1) e ∙ one.0 ∙ sym (ap (λ x. x.1) f)
          ]
        ]
