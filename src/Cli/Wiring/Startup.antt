-- ===== src/Cli/Wiring/Startup.antt =====
-- A node that is started with a sound configuration runs consensus.
use allegro.Prelude.{
  ℕ, ◌≤◌, ◌/◌, ◌≡◌, refl, sym, ◌∙◌, Bool, false, List, Option, none, some, Result, ok, arith,
  u64_max, inl, inr, nat_eqb, Option-cases, ◌*◌, ◌⊎◌,
}
use Prim.Native.String.{String}
use allegro.Primitives.Digest.{B256, PublicKey, empty_digest, zero_hash, digest_eq}
use allegro.Prelude.Dict.{get}
use allegro.Consensus.Validators.{
  SocketAddr, ValidatorEntry, ValidatorSet, set_is_empty, from_entries,
}
use allegro.Consensus.Validators.Entries.{Distinct}
use allegro.Consensus.Config.{ConsensusConfig}
use allegro.Consensus.Config.Valid.{IsSound, validate_iff}
use allegro.Consensus.Application.{Actor, Message, new_actor, run}
use allegro.Consensus.Application.Running.{AllTimed}
use allegro.Consensus.Application.Backing.{IsBacked}
use allegro.Consensus.Application.Rooting.{AsksEmpty}
use allegro.Consensus.Executor.{BuiltPayload, BuildPayloadRequest}
use allegro.Consensus.Engine.{
  SimplexConfig, started, start_simplex_engine, simplex_config, start_actor,
}
use allegro.Consensus.Engine.Starting.{
  IsSized, start_simplex_engine-from_entries, start_simplex_engine-run,
  start_simplex_engine-genesis,
}
use allegro.Node.Reth.{Engine, EthFormat, Honours}
use allegro.Node.Builder.{Tracker, new_tracker, payload_of, create_engine_payload_builder}
use allegro.Node.Builder.Agreement.{engine_builder-IsPunctual, build-Builds}
use allegro.Network.{engine_builder}
use allegro.Node.Launch.{into_launched, into_launched_timed}
use allegro.Cli.Args.{
  ConsensusArgs, LookupConfig, default_listen, build_consensus_config, resolve_listen,
  dev_lookup_config,
}
use allegro.Cli.Wiring.{
  Runtime, Consensus, RethWiring, wiring_of, SpawnError, engine_config, run_network, run_consensus,
  spawn_consensus_thread,
}

build_consensus_config-IsSized :
    (show_u8 : ℕ → String) (args : ConsensusArgs) → IsSized (build_consensus_config show_u8 args)
unfolding build_consensus_config
build_consensus_config-IsSized show_u8 args = record {
  pages = omega arith;
  page_capacity = omega arith;
  replay = omega arith;
  write = omega arith;
}

resolve_listen-listen :
    (dev : Bool) (args : ConsensusArgs)
    → (addr : SocketAddr) × ((resolve_listen dev args).listen ≡ some addr)
unfolding resolve_listen
resolve_listen-listen dev args = elim (Option-cases args.listen) [
  | inl unset ↦ (default_listen dev, ground arith)
  | inr (addr, given) ↦ (addr, ground arith)
]

-- The listen address is no part of the consensus configuration.
build_consensus_config-resolve_listen :
    (show_u8 : ℕ → String) (dev : Bool) (args : ConsensusArgs)
    → build_consensus_config show_u8 (resolve_listen dev args) ≡ build_consensus_config show_u8 args
unfolding build_consensus_config resolve_listen
build_consensus_config-resolve_listen show_u8 dev args = elim (Option-cases args.listen) [
  | inl unset ↦ rw (resolve_listen, unset) refl
  | inr (addr, given) ↦ rw (resolve_listen, given) refl
]

into_launched_genesis :
    (datadir : String) (hash : B256) (timestamp : ℕ)
    → timestamp ≤ u64_max / 1000
    → let reth = wiring_of (into_launched datadir hash timestamp) in
      (reth.genesis_hash ≡ hash)
      × (reth.genesis_timestamp ≡ timestamp)
      × (reth.genesis_timestamp_millis ≡ timestamp * 1000)
unfolding into_launched
into_launched_genesis datadir hash timestamp fits = ground arith

build_payload-zero :
    {W B X : Type 0} (eth : EthFormat B X) (engine : Engine W B X)
    → Honours eth engine
    → (req : BuildPayloadRequest) (v : Tracker × W) (payload : BuiltPayload)
    → ((engine_builder eth engine).build_payload req v).0 ≡ ok payload
    → payload.block_hash ≡ zero_hash
    → (b : B) × (eth.header_hash b ≡ zero_hash)
unfolding create_engine_payload_builder payload_of
build_payload-zero eth engine honours req (tracker, w) payload built zero_hashed =
    let b = build-Builds eth engine honours tracker req w payload built in
    (b.block, ground (arith, b.payload_eq, zero_hashed))

module _ {K S C O M : Type 0} (rt : Runtime K S C O M) where
  -- A consensus thread whose engine started.
  pub record Runs (validators : ValidatorSet) (reth : RethWiring)
      (r : Result (Option (Consensus K S C O)) SpawnError) : Type 0 where
    pub thread : Consensus K S C O
    pub spawned : r ≡ ok (some thread)
    pub simplex : SimplexConfig S C
    pub actor : Actor
    pub outcome : thread.outcome ≡ started simplex actor
    pub same_validators : actor.validators ≡ validators
    pub tracker : thread.tracker ≡ new_tracker reth.genesis_hash

  spawn-Runs :
      (args : ConsensusArgs) (entries : List ValidatorEntry) (reth : RethWiring) (addr : SocketAddr)
      → args.listen ≡ some addr
      → ((ks : List PublicKey)
          → Distinct ks
          → (ps : List PublicKey) × (rt.commonware.ordered ks ≡ ok ps))
      → IsSound (build_consensus_config rt.show_u8 args)
      → set_is_empty (from_entries entries) ≡ false
      → Runs
          (from_entries entries)
          reth
          (spawn_consensus_thread rt (ok tt) args (from_entries entries) reth)
  unfolding spawn_consensus_thread run_consensus run_network dev_lookup_config engine_config
      start_actor new_actor build_consensus_config simplex_config
  spawn-Runs args entries reth addr listening accepts sound some_validator =
      let cc = build_consensus_config rt.show_u8 args in
      let config = engine_config rt args (from_entries entries) reth cc in
      let (ps, starts) =
        start_simplex_engine-from_entries rt.commonware config entries refl accepts sound
          some_validator (build_consensus_config-IsSized rt.show_u8 args) in
      let sized : nat_eqb args.mailbox_size 0 ≡ false = ground (arith, sound.mailbox) in
      rw (spawn_consensus_thread, (validate_iff cc).1 sound, listening, sized)
        (record {
          thread = _;
          spawned = refl;
          simplex = _;
          actor = _;
          outcome = starts;
          same_validators = refl;
          tracker = refl;
        })

  -- If the arguments make a sound configuration, the validators come from entries of which there is
  -- one, the ordered set takes lists without duplicates and the system spawns the thread, then the
  -- consensus thread runs and its engine started, with these validators and the tracker at the
  -- genesis block, whether or not a listen address was given.
  pub spawn_consensus_thread-Runs :
      (dev : Bool) (args : ConsensusArgs) (entries : List ValidatorEntry) (reth : RethWiring)
      → ((ks : List PublicKey)
          → Distinct ks
          → (ps : List PublicKey) × (rt.commonware.ordered ks ≡ ok ps))
      → IsSound (build_consensus_config rt.show_u8 args)
      → set_is_empty (from_entries entries) ≡ false
      → Runs
          (from_entries entries)
          reth
          (spawn_consensus_thread rt (ok tt) (resolve_listen dev args) (from_entries entries) reth)
  unfolding spawn_consensus_thread
  spawn_consensus_thread-Runs dev args entries reth accepts sound some_validator =
      let (addr, listening) = resolve_listen-listen dev args in
      spawn-Runs (resolve_listen dev args) entries reth addr listening accepts
        (rw (build_consensus_config-resolve_listen rt.show_u8 dev args) sound) some_validator

  pub run_network-outcome :
      (args : ConsensusArgs) (validators : ValidatorSet) (reth : RethWiring) (c : ConsensusConfig)
      (network : Option (LookupConfig K)) (thread : Consensus K S C O)
      → run_network rt args validators reth c network ≡ some thread
      → thread.outcome
        ≡ start_simplex_engine rt.commonware (engine_config rt args validators reth c)
  unfolding run_network
  run_network-outcome args validators reth c none thread h = cc
  run_network-outcome args validators reth c (some network) thread h = ground arith

  -- In every consensus thread whose engine started, with a genesis time in seconds whose
  -- milliseconds fit in 64 bits, after any messages at any clock readings: every known block has
  -- whole seconds of its milliseconds in 64 bits; the bytes of every proposed digest are in the
  -- unpoisoned store that the relay reads; and under the empty digest stands the genesis block,
  -- with number 0, the chain's hash, view 0, the key of seed 0 and its time in seconds and
  -- milliseconds, unless one of the messages asks for the verification of the empty digest or some
  -- block hashes to zero. The engine is any that keeps the timestamp it is asked for.
  pub run_consensus_invariant :
      {W B X : Type 0} (eth : EthFormat B X) (engine : Engine W B X)
      → Honours eth engine
      → (args : ConsensusArgs) (validators : ValidatorSet) (datadir : String) (hash : B256)
        (timestamp : ℕ) (c : ConsensusConfig) (thread : Consensus K S C O)
      → timestamp ≤ u64_max / 1000
      → run_consensus rt args validators (wiring_of (into_launched datadir hash timestamp)) c
        ≡ some thread
      → (simplex : SimplexConfig S C) (a : Actor) → thread.outcome ≡ started simplex a
      → (msgs : List (Option ℕ × Message)) (w : W)
      → let s = (run (engine_builder eth engine) msgs a (thread.tracker, w)).0 in
        AllTimed s.block_info.contents
        × IsBacked s
        × ((get s.block_info.contents empty_digest
              ≡ some (record {
                number = 0;
                hash = hash;
                view = 0;
                proposer = rt.commonware.public_key (rt.commonware.from_seed 0);
                timestamp = timestamp;
                timestamp_millis = timestamp * 1000;
              }))
            ⊎ (AsksEmpty msgs ⊎ ((b : B) × (eth.header_hash b ≡ zero_hash))))
  unfolding run_consensus engine_config get into_launched
  run_consensus_invariant eth engine honours args validators datadir hash timestamp c thread fits h
        simplex a outcome msgs w =
      let reth = wiring_of (into_launched datadir hash timestamp) in
      let config = engine_config rt args validators reth c in
      let same = sym (run_network-outcome args validators reth c _ thread h) ∙ outcome in
      let (seconds, range) = into_launched_timed datadir hash timestamp fits in
      let (timed, backed) =
        start_simplex_engine-run rt.commonware (engine_builder eth engine)
          (engine_builder-IsPunctual eth engine honours) config simplex a same refl seconds range
          msgs (thread.tracker, w) in
      let root =
        start_simplex_engine-genesis rt.commonware (engine_builder eth engine)
          (λ req v payload built zero_hashed.
            build_payload-zero eth engine honours req v payload built zero_hashed)
          config simplex a same msgs (thread.tracker, w) in
      let (same_hash, same_time, same_millis) = into_launched_genesis datadir hash timestamp fits in
      (timed, backed, rw (← same_hash, ← same_time, ← same_millis) root)
