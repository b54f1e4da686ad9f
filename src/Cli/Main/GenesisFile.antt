-- ===== src/Cli/Main/GenesisFile.antt =====
-- A node that is started on a genesis file runs consensus with the validators of the file.
use allegro.Prelude.{ℕ, ◌≡◌, refl, ap, ◌∙◌, Bool, false, List, Option, some, ok, arith, and_then}
use Prim.Native.String.{String}
use allegro.Primitives.Digest.{PublicKey}
use allegro.Consensus.Validators.{ValidatorEntry, ValidatorSet, set_is_empty, from_entries}
use allegro.Consensus.Validators.Entries.{Distinct}
use allegro.Consensus.Config.Valid.{IsSound}
use allegro.Node.Chainspec.{TextForms, GenesisFiles, load_chain_with_validators}
use allegro.Node.Launch.{LaunchedRethNode}
use allegro.Cli.Args.{ConsensusArgs, build_consensus_config, resolve_listen}
use allegro.Cli.Devnet.{build_validator_set}
use allegro.Cli.Genesis.{genesis_validators}
use allegro.Cli.Wiring.{wiring_of, Runtime, Consensus, spawn_consensus_thread}
use allegro.Cli.Wiring.Startup.{Runs, spawn_consensus_thread-Runs}
use allegro.Cli.Main.{
  NodeStart, runs, spawn_result, Host, start_with_set, start_with_genesis, start_launched, main,
}

build_validator_set-genesis :
    (key_from_seed : ℕ → PublicKey) (overflow_checks : Bool) (args : ConsensusArgs)
    (validators : ValidatorSet)
    → set_is_empty validators ≡ false
    → build_validator_set key_from_seed overflow_checks args validators ≡ some validators
unfolding build_validator_set
build_validator_set-genesis key_from_seed overflow_checks args validators h = ground arith

module _ {K S C O M T J G Spec : Type 0} (rt : Runtime K S C O M) (text : TextForms)
    (files : GenesisFiles T J G Spec) (dev_chainspec : Spec) where
  genesis_validators-file :
      (path : String) (spec : Spec) (validators : ValidatorSet)
      → load_chain_with_validators text files path ≡ ok (spec, validators)
      → (genesis_validators text files dev_chainspec (some path)).0 ≡ ok validators
  unfolding genesis_validators
  genesis_validators-file path spec validators loaded =
      ap (λ r. and_then r λ (spec, validators). ok validators) loaded

  -- The thread of a started node, and how it started.
  pub record RunsWith (validators : ValidatorSet) (launched : LaunchedRethNode)
      (start : NodeStart K S C O) : Type 0 where
    pub thread : Consensus K S C O
    pub start_eq : start ≡ runs (some thread)
    pub running : Runs rt validators (wiring_of launched) (ok (some thread))

  -- A node with some genesis validators, and a validator set of some entries.
  pub started-RunsWith :
      (host : Host) (dev : Bool) (path : Option String) (args : ConsensusArgs)
      (launched : LaunchedRethNode) (genesis : ValidatorSet) (entries : List ValidatorEntry)
      → host.launched false ≡ ok launched
      → host.spawned ≡ ok tt
      → (genesis_validators text files dev_chainspec path).0 ≡ ok genesis
      → build_validator_set
          (λ seed. rt.commonware.public_key (rt.commonware.from_seed seed))
          host.overflow_checks
          (resolve_listen dev args)
          genesis
        ≡ some (from_entries entries)
      → set_is_empty (from_entries entries) ≡ false
      → ((ks : List PublicKey)
          → Distinct ks
          → (ps : List PublicKey) × (rt.commonware.ordered ks ≡ ok ps))
      → IsSound (build_consensus_config rt.show_u8 args)
      → RunsWith
          (from_entries entries)
          launched
          (main rt text files dev_chainspec host dev path args)
  unfolding main start_launched start_with_genesis start_with_set
  started-RunsWith host dev path args launched genesis entries up spawns loaded set some_validator
        accepts sound =
      let vs = from_entries entries in
      let r =
        spawn_consensus_thread-Runs rt dev args entries (wiring_of launched) accepts sound
          some_validator in
      record {
        thread = r.thread;
        start_eq =
            ap (start_launched rt text files dev_chainspec host path (resolve_listen dev args)) up
            ∙ ap (start_with_genesis rt host (resolve_listen dev args) launched) loaded
            ∙ ap (start_with_set rt host (resolve_listen dev args) launched) set
            ∙ ap
                (λ s.
                  spawn_result rt
                    (spawn_consensus_thread rt s (resolve_listen dev args) vs (wiring_of launched)))
                spawns
            ∙ ap (spawn_result rt) r.spawned;
        running = record {
          thread = r.thread;
          spawned = refl;
          simplex = r.simplex;
          actor = r.actor;
          outcome = r.outcome;
          same_validators = r.same_validators;
          tracker = r.tracker;
        };
      }

  -- If reth launches with its own dev flag off, the genesis file loads with the validators of
  -- entries of which there is one, the ordered set takes lists without duplicates, the arguments
  -- make a sound configuration and the system spawns the thread, then main, with or without the dev
  -- flag, ends with a consensus thread that runs with the validators of the file and the tracker at
  -- the genesis block, and whose engine started.
  pub main-RunsWith :
      (host : Host) (dev : Bool) (path : String) (args : ConsensusArgs)
      (launched : LaunchedRethNode) (spec : Spec) (entries : List ValidatorEntry)
      → host.launched false ≡ ok launched
      → host.spawned ≡ ok tt
      → load_chain_with_validators text files path ≡ ok (spec, from_entries entries)
      → set_is_empty (from_entries entries) ≡ false
      → ((ks : List PublicKey)
          → Distinct ks
          → (ps : List PublicKey) × (rt.commonware.ordered ks ≡ ok ps))
      → IsSound (build_consensus_config rt.show_u8 args)
      → RunsWith
          (from_entries entries)
          launched
          (main rt text files dev_chainspec host dev (some path) args)
  main-RunsWith host dev path args launched spec entries up spawns loaded some_validator accepts
        sound =
      let vs = from_entries entries in
      started-RunsWith host dev (some path) args launched vs entries up spawns
        (genesis_validators-file path spec vs loaded)
        (build_validator_set-genesis
          (λ seed. rt.commonware.public_key (rt.commonware.from_seed seed)) host.overflow_checks
          (resolve_listen dev args) vs some_validator)
        some_validator accepts sound
