-- ===== src/Cli/Wiring/Fleet.antt =====
-- The nodes of a network, each started by `run_consensus`.
use allegro.Prelude.{ℕ, ◌≡◌, ◌≢◌, sym, ap, ◌∙◌, Option, none, some, [], arith}
use allegro.Primitives.Digest.{Bytes, B256}
use allegro.Consensus.Validators.{ValidatorSet}
use allegro.Consensus.Config.{ConsensusConfig}
use allegro.Consensus.Engine.{EngineConfig, SimplexConfig, started}
use allegro.Consensus.Engine.Starting.{start_simplex_engine-actor}
use allegro.Node.Reth.{Engine, EthFormat, Decodes, Jobs, Hashes}
use allegro.Node.Builder.{new_tracker}
use allegro.Network.Waiting.{idle}
use allegro.Network.System.{Transport, Net, Reach}
use allegro.Network.System.Wires.{Unforged}
use allegro.Network.System.Consistency.{Starts, trackers_agree}
use allegro.Cli.Args.{ConsensusArgs, LookupConfig}
use allegro.Cli.Wiring.{Runtime, Consensus, RethWiring, engine_config, run_network, run_consensus}
use allegro.Cli.Wiring.Startup.{run_network-outcome}

-- What each node was started with.
pub record NodeArgs (K S C O : Type 0) : Type 0 where
  pub args : ConsensusArgs
  pub validators : ValidatorSet
  pub reth : RethWiring
  pub consensus_config : ConsensusConfig
  pub thread : Consensus K S C O
  pub simplex : SimplexConfig S C

module _ {K S C O M : Type 0} (rt : Runtime K S C O M) where
  abbrev pub config_of : NodeArgs K S C O → EngineConfig K C
  config_of a = engine_config rt a.args a.validators a.reth a.consensus_config

  -- Each node has the actor and the tracker of a consensus thread whose engine started, all on one
  -- genesis block; nothing was sent yet.
  pub record Fleet {W B N : Type 0} (nodes : ℕ → NodeArgs K S C O) (t : Transport N)
      (genesis_hash : B256) (net : Net W B N) : Type 0 where
    pub ran :
        (i : ℕ)
        → run_consensus rt
            (nodes i).args
            (nodes i).validators
            (nodes i).reth
            (nodes i).consensus_config
          ≡ some (nodes i).thread
    pub engines : (i : ℕ) → (nodes i).thread.outcome ≡ started (nodes i).simplex (net.nodes i).actor
    pub trackers : (i : ℕ) → (net.nodes i).tracker ≡ (nodes i).thread.tracker
    pub one_genesis : (i : ℕ) → (nodes i).reth.genesis_hash ≡ genesis_hash
    pub at_rest : (i : ℕ) → (net.nodes i).busy ≡ idle
    pub nothing_final : (i : ℕ) → (net.nodes i).finalizing ≡ none
    pub quiet : t.carried net.transport ≡ []

  run_network-tracker :
      (a : NodeArgs K S C O) (network : Option (LookupConfig K))
      → run_network rt a.args a.validators a.reth a.consensus_config network ≡ some a.thread
      → a.thread.tracker ≡ new_tracker a.reth.genesis_hash
  unfolding run_network
  run_network-tracker a none h = cc
  run_network-tracker a (some network) h = ground arith

  pub Fleet-Starts :
      {W B N : Type 0} (nodes : ℕ → NodeArgs K S C O) (t : Transport N) (genesis_hash : B256)
      (net : Net W B N)
      → Fleet nodes t genesis_hash net
      → Starts rt.commonware (λ i. config_of (nodes i)) t genesis_hash net
  unfolding run_consensus engine_config
  Fleet-Starts nodes t genesis_hash net f = record {
    actors = λ i.
        let a = nodes i in
        start_simplex_engine-actor rt.commonware (config_of a) a.simplex (net.nodes i).actor (
          sym (
            run_network-outcome rt a.args a.validators a.reth a.consensus_config _ a.thread
              (f.ran i))
          ∙ f.engines i);
    one_genesis = f.one_genesis;
    at_rest = f.at_rest;
    nothing_final = f.nothing_final;
    trackers = λ i.
        f.trackers i ∙ run_network-tracker (nodes i) _ (f.ran i) ∙ ap new_tracker (f.one_genesis i);
    quiet = f.quiet;
  }

  module _ {W B X N : Type 0} (eth : EthFormat B X) (engine : Engine W B X) (jobs : Jobs eth engine)
      (t : Transport N) (genesis_hash : B256) (decodes : Decodes eth) (hashes : Hashes eth)
      (IsForeign : Bytes → Type 0) (unforged : (m : Bytes) → IsForeign m → Unforged eth m) where
    -- In a network of any number of nodes, each the consensus thread of run_consensus with any
    -- arguments, validators and configuration whose engine started, all on one genesis hash, and of
    -- others that send any messages in which no block stands under a digest that is not its hash,
    -- whatever happens, also while a handler or a finalizer waits: two trackers of the last
    -- finalized block that are at one hash, other than the genesis hash, are at one number. Payload
    -- jobs keep the seconds that they were started with, encoded blocks decode, hashes have 32
    -- bytes, and blocks of one hash have one number and one time.
    pub threads_finalize_alike :
        (nodes : ℕ → NodeArgs K S C O) (start net : Net W B N)
        → Fleet nodes t genesis_hash start
        → Reach eth engine t IsForeign jobs.GoesOn start net
        → (i j : ℕ) → (net.nodes i).tracker.0 ≢ genesis_hash
        → (net.nodes i).tracker.0 ≡ (net.nodes j).tracker.0
        → (net.nodes i).tracker.1 ≡ (net.nodes j).tracker.1
    threads_finalize_alike nodes start net f r i j =
        trackers_agree eth engine jobs t rt.commonware (λ i. config_of (nodes i)) genesis_hash
          decodes hashes IsForeign unforged start net (Fleet-Starts nodes t genesis_hash start f) r
          i j
