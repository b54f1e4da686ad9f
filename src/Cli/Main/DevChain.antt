-- ===== src/Cli/Main/DevChain.antt =====
-- A node that is started on the dev chain runs consensus with the validators of a devnet.
use allegro.Prelude.{
  ℕ, ◌<◌, ◌≤◌, ◌≡◌, refl, Bool, true, false, List, [], ◌∷◌, Option, ok, length, arith,
}
use Prim.Native.String.{String}
use allegro.Primitives.Digest.{PublicKey}
use allegro.Consensus.Validators.{SocketAddr, new_set, set_is_empty, from_entries}
use allegro.Consensus.Validators.Entries.{Distinct, indexed_entries, from_entries-some}
use allegro.Consensus.Config.Valid.{IsSound}
use allegro.Node.Chainspec.{TextForms, GenesisFiles}
use allegro.Node.Launch.{LaunchedRethNode}
use allegro.Cli.Args.{ConsensusArgs, build_consensus_config, resolve_listen}
use allegro.Cli.Devnet.Agreement.{Placed, build_validator_set_agrees}
use allegro.Cli.Genesis.{is_dev, parse, genesis_validators}
use allegro.Cli.Wiring.{Runtime}
use allegro.Cli.Main.{Host, main}
use allegro.Cli.Main.GenesisFile.{RunsWith, started-RunsWith}

indexed_entries-some :
    (key_from_seed : ℕ → PublicKey) (table : List SocketAddr)
    → 0 < length table
    → set_is_empty (from_entries (indexed_entries key_from_seed 0 table)) ≡ false
indexed_entries-some key_from_seed [] h = absurd (omega arith)
indexed_entries-some key_from_seed (a ∷ table) h =
    from_entries-some _ (indexed_entries key_from_seed 1 table)

module _ {K S C O M T J G Spec : Type 0} (rt : Runtime K S C O M) (text : TextForms)
    (files : GenesisFiles T J G Spec) (dev_chainspec : Spec) where
  dev_chain-validators :
      (s : String) (left : Option String)
      → is_dev s ≡ true
      → (genesis_validators text files dev_chainspec (parse text files dev_chainspec s left).1).0
        ≡ ok new_set
  unfolding genesis_validators parse
  dev_chain-validators s left dev = rw (parse, dev) refl

  -- If the chain argument is dev, whatever path was left before, reth launches with its own dev
  -- flag off, the node is started with its index in a table of at most 255 addresses, its own
  -- address, given or by default, and the others in order as peers, the ordered set takes lists
  -- without duplicates, the arguments make a sound configuration and the system spawns the thread,
  -- then main, with or without the dev flag, ends with a consensus thread that runs with the set in
  -- which validator i has the key of seed i and the i-th address and the tracker at the genesis
  -- block, and whose engine started.
  pub main-devnet :
      (host : Host) (dev : Bool) (s : String) (left : Option String) (args : ConsensusArgs)
      (launched : LaunchedRethNode) (table : List SocketAddr)
      → is_dev s ≡ true
      → host.launched false ≡ ok launched
      → host.spawned ≡ ok tt
      → length table ≤ 255
      → Placed table (resolve_listen dev args)
      → ((ks : List PublicKey)
          → Distinct ks
          → (ps : List PublicKey) × (rt.commonware.ordered ks ≡ ok ps))
      → IsSound (build_consensus_config rt.show_u8 args)
      → let key_from_seed = λ (seed : ℕ). rt.commonware.public_key (rt.commonware.from_seed seed) in
        RunsWith rt text files dev_chainspec
          (from_entries (indexed_entries key_from_seed 0 table))
          launched
          (main rt text files dev_chainspec host dev (parse text files dev_chainspec s left).1 args)
  main-devnet host dev s left args launched table chosen up spawns small placed accepts sound =
      let key_from_seed = λ (seed : ℕ). rt.commonware.public_key (rt.commonware.from_seed seed) in
      started-RunsWith rt text files dev_chainspec host dev
        (parse text files dev_chainspec s left).1 args launched new_set
        (indexed_entries key_from_seed 0 table) up spawns (dev_chain-validators s left chosen)
        (build_validator_set_agrees key_from_seed host.overflow_checks table
          (resolve_listen dev args) small placed)
        (indexed_entries-some key_from_seed table (omega (arith, placed.inside))) accepts sound
