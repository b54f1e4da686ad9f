-- ===== src/Examples/CliTests.antt =====
-- The wiring of a node, the validator sets, and the chain argument on concrete arguments.
use allegro.Prelude.{ℕ, ◌≡◌, ◌↔◌, ◌⊎◌, refl, true, false, List, [], ◌∷◌, none, some, ok, arith}
use allegro.Prelude.Dict.{insert, get}
use allegro.Prelude.Equality.{bytes_eqb}
use allegro.Primitives.Digest.{Digest, PublicKey, digest_eq, public_key_eq, empty_digest, zero_hash}
use allegro.Consensus.Validators.{new_set, set_is_empty, from_entries, add_entries}
use allegro.Consensus.Validators.Entries.{Distinct}
use allegro.Consensus.Config.{default_config, validate}
use allegro.Consensus.Config.Valid.{IsSound}
use allegro.Consensus.Application.{run}
use allegro.Consensus.Application.Running.{AllTimed}
use allegro.Consensus.Application.Backing.{IsBacked}
use allegro.Consensus.Application.Rooting.{AsksEmpty}
use allegro.Consensus.Engine.{
  EngineConfig, started, start_simplex_engine, start_with, start_actor, simplex_config,
  has_zero_size,
}
use allegro.Consensus.Engine.Starting.{IsSized, start_simplex_engine_iff}
use allegro.Node.Launch.{into_launched}
use allegro.Node.Chainspec.{
  GenesisFiles, ValidatorFileEntry, load_chain_with_validators, entries_of, validator_set_of,
  parse_entries, parse_entry,
}
use allegro.Network.{engine_builder}
use allegro.Cli.Args.{ConsensusArgs, build_consensus_config, dev_lookup_config}
use allegro.Cli.Devnet.{build_validator_set}
use allegro.Cli.Devnet.Agreement.{build_validator_set_agrees, build_validator_set_index_panics}
use allegro.Cli.Genesis.{parse}
use allegro.Cli.Wiring.{run_network, run_consensus}
use allegro.Cli.Wiring.Startup.{run_consensus_invariant}
use allegro.Cli.Main.{Host, main}
use allegro.Cli.Args.{resolve_listen}
use allegro.Cli.Main.DevChain.{main-devnet}
use allegro.Cli.Main.GenesisFile.{RunsWith, main-RunsWith}
use allegro.Xtask.{sockets_from, outputs_from}
use Prim.Native.String.{String}
use allegro.Examples.Fixtures.{Queue, TestBlock, eth, engine, engine-Honours}
use allegro.Examples.Texts.{text_forms, generators, key_from_seed}
use allegro.Examples.Scenario.{commonware, config, genesis_hash, leader_key, validators, messages}
use allegro.Examples.NodeScenario.{
  table, entries, args, runtime, launched, running_simplex, thread, running,
}

accepting :
    (ks : List PublicKey) → Distinct ks → (ps : List PublicKey) × (commonware.ordered ks ≡ ok ps)
accepting ks distinct = (ks, refl)

default-IsSound : IsSound default_config
default-IsSound = record {
  mailbox = omega arith;
  leader = omega arith;
  retry = omega arith;
  fetch = omega arith;
  retention = omega arith;
  term = omega arith;
  leader_first = omega arith;
  certification_first = omega arith;
  retry_first = omega arith;
  stall_last = λ h. omega arith;
}

start_simplex_engine_iff_example :
    (start_simplex_engine commonware config
      ≡ started
          (simplex_config commonware config (leader_key ∷ []))
          (start_actor commonware config))
    ↔ (IsSound default_config × (set_is_empty validators ≡ false) × IsSized default_config)
start_simplex_engine_iff_example = start_simplex_engine_iff commonware config (leader_key ∷ []) refl

abbrev derived : EngineConfig ℕ (Queue Digest)
derived = record config { validators = from_entries entries }

args-IsSound : IsSound (build_consensus_config runtime.show_u8 args)
unfolding build_consensus_config
args-IsSound = record {
  mailbox = omega arith;
  leader = omega arith;
  retry = omega arith;
  fetch = omega arith;
  retention = omega arith;
  term = omega arith;
  leader_first = omega arith;
  certification_first = omega arith;
  retry_first = omega arith;
  stall_last = λ h. omega arith;
}

run_consensus_invariant_example :
    let s = (run (engine_builder eth engine) messages running (thread.tracker, 2)).0 in
    AllTimed s.block_info.contents
    × IsBacked s
    × ((get s.block_info.contents empty_digest
          ≡ some (record {
            number = 0;
            hash = genesis_hash;
            view = 0;
            proposer = runtime.commonware.public_key (runtime.commonware.from_seed 0);
            timestamp = 3;
            timestamp_millis = 3000;
          }))
        ⊎ (AsksEmpty messages ⊎ ((b : TestBlock) × (eth.header_hash b ≡ zero_hash))))
unfolding run_consensus run_network dev_lookup_config into_launched start_simplex_engine start_with
    has_zero_size validate
run_consensus_invariant_example =
    run_consensus_invariant runtime eth engine engine-Honours args validators "/data" genesis_hash 3
      default_config thread (omega arith) refl running_simplex running refl messages 2

build_validator_set_agrees_example :
    build_validator_set key_from_seed true args new_set ≡ some (from_entries entries)
build_validator_set_agrees_example =
    build_validator_set_agrees key_from_seed true table args (omega arith)
      (record { inside = omega arith; own = refl; others = refl })

-- The third validator, but with one peer.
abbrev outside : ConsensusArgs
outside = record args { node = 2 }

build_validator_set_index_panics_example :
    build_validator_set key_from_seed false outside new_set ≡ none
build_validator_set_index_panics_example =
    build_validator_set_index_panics key_from_seed false outside (omega arith) (omega arith)

-- A file is its validators.
abbrev files : GenesisFiles String (List ValidatorFileEntry) ℕ ℕ
files = record {
  read_to_string = λ path. ok path;
  from_str = λ content. ok [];
  remove_validators = λ value. (some value, []);
  entries_from_value = λ value. ok value;
  genesis_from_value = λ value. ok 5;
  from_genesis = λ genesis. genesis;
}

-- A file of two validators.
abbrev two_files : GenesisFiles String (List ValidatorFileEntry) ℕ ℕ
two_files = record files {
  from_str = λ content. ok (outputs_from generators 0 (sockets_from generators 3000 2));
}

abbrev host : Host
host = record { launched = λ dev. ok launched; spawned = ok tt; overflow_checks = true }

main-RunsWith_example :
    RunsWith runtime text_forms two_files 0
      (from_entries entries)
      launched
      (main runtime text_forms two_files 0 host false (some "genesis.json") args)
unfolding load_chain_with_validators entries_of validator_set_of parse_entries parse_entry
    from_entries add_entries insert bytes_eqb outputs_from sockets_from
main-RunsWith_example =
    main-RunsWith runtime text_forms two_files 0 host false "genesis.json" args launched 5 entries
      refl refl refl refl accepting args-IsSound

-- After the path of another file was left, the dev chain is chosen.
main-devnet_example : RunsWith runtime text_forms files 0 (from_entries entries) launched (
    main runtime text_forms files 0 host true
      (parse text_forms files 0 "dev" (some "old.json")).1
      args)
unfolding resolve_listen
main-devnet_example =
    main-devnet runtime text_forms files 0 host true "dev" (some "old.json") args launched table
      refl refl refl (omega arith) (record { inside = omega arith; own = refl; others = refl })
      accepting args-IsSound
