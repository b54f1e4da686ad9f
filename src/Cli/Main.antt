-- ===== src/Cli/Main.antt =====
-- bin/allegro/src/main.rs: `main`, from the parsed arguments on. The launch of the reth node is an
-- argument.
pub mod GenesisFile
pub mod DevChain
use allegro.Prelude.{ℕ, Bool, false, Option, none, some, Result, ok, err}
use Prim.Native.String.{String}
use allegro.Primitives.Digest.{PublicKey}
use allegro.Consensus.Validators.{ValidatorSet}
use allegro.Node.Chainspec.{TextForms, GenesisFiles, LoadError}
use allegro.Node.Launch.{LaunchedRethNode}
use allegro.Cli.Args.{ConsensusArgs, resolve_listen}
use allegro.Cli.Devnet.{build_validator_set}
use allegro.Cli.Genesis.{genesis_validators}
use allegro.Cli.Wiring.{Runtime, Consensus, SpawnError, wiring_of, spawn_consensus_thread}

-- How the start of a node ends; the node then runs until reth exits.
pub data NodeStart (K S C O : Type 0) : Type 0 where
  runs : Option (Consensus K S C O) → NodeStart K S C O
  launch_failed : String → NodeStart K S C O
  load_failed : LoadError → NodeStart K S C O
  spawn_failed : SpawnError → NodeStart K S C O
  panicked : NodeStart K S C O

-- How reth launches, by its own dev flag, what the operating system answers, and the build's overflow
-- checks.
pub record Host : Type 0 where
  pub launched : Bool → Result LaunchedRethNode String
  pub spawned : Result (Unit {0}) String
  pub overflow_checks : Bool

-- `apply_node_command`: the dev flag is taken, and is off for reth, whose auto-miner stays off.
abbrev pub take_dev : Bool → Bool × Bool
take_dev dev = (dev, false)

module _ {K S C O M : Type 0} (rt : Runtime K S C O M) where
  abbrev pub spawn_result : Result (Option (Consensus K S C O)) SpawnError → NodeStart K S C O
  spawn_result (ok thread) = runs thread
  spawn_result (err e) = spawn_failed e

  -- `main`, once the validator set is built.
  unfoldable pub start_with_set :
      Host → ConsensusArgs → LaunchedRethNode → Option ValidatorSet → NodeStart K S C O
  start_with_set host args launched none = panicked
  start_with_set host args launched (some validators) =
      spawn_result (spawn_consensus_thread rt host.spawned args validators (wiring_of launched))

  -- `main`, once the genesis validators are loaded.
  unfoldable pub start_with_genesis :
      Host → ConsensusArgs → LaunchedRethNode → Result ValidatorSet LoadError → NodeStart K S C O
  unfolding start_with_set
  start_with_genesis host args launched (err e) = load_failed e
  start_with_genesis host args launched (ok validators) = start_with_set host args launched (
      build_validator_set (λ seed. rt.commonware.public_key (rt.commonware.from_seed seed))
        host.overflow_checks args validators)

module _ {K S C O M T J G Spec : Type 0} (rt : Runtime K S C O M) (text : TextForms)
    (files : GenesisFiles T J G Spec) (dev_chainspec : Spec) where
  unfoldable pub start_launched :
      Host → Option String → ConsensusArgs → Result LaunchedRethNode String → NodeStart K S C O
  unfolding start_with_genesis
  start_launched host path args (err e) = launch_failed e
  start_launched host path args (ok launched) =
      start_with_genesis rt host args launched (genesis_validators text files dev_chainspec path).0

  -- `main`, on the `--dev` flag, the path that the chain argument left, and the arguments.
  unfoldable pub main : Host → Bool → Option String → ConsensusArgs → NodeStart K S C O
  unfolding start_launched
  main host flag path args =
      let (dev, reth_dev) = take_dev flag in
      start_launched host path (resolve_listen dev args) (host.launched reth_dev)
