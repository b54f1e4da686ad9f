-- ===== src/Cli/Devnet.antt =====
-- bin/allegro/src/main.rs: `build_validator_set`, the set of a devnet that is derived from the node's
-- index and its peers.
pub mod Agreement
use allegro.Prelude.{
  ℕ, zero, suc, ◌+◌, ◌-◌, ◌<◌, Bool, true, false, not, ◌&&◌, List, [], ◌∷◌, Option, none, some,
  length, get_elem?, ltb, nat_eqb, wrap_u8, if◌then◌else◌,
}
use allegro.Primitives.Digest.{PublicKey}
use allegro.Consensus.Validators.{
  SocketAddr, ValidatorEntry, ValidatorSet, set_is_empty, from_entries,
}
use allegro.Cli.Args.{ConsensusArgs}

-- The address of validator `i`; `none` is a panic, on an index past the peers or on a listen address
-- that was not resolved.
unfoldable pub addr_at : ConsensusArgs → ℕ → Option SocketAddr
addr_at args i =
    if nat_eqb i args.node
    then args.listen
    else if ltb i args.node
    then get_elem? args.peers i
    else get_elem? args.peers (i - 1)

abbrev pub entry_of : PublicKey → SocketAddr → ValidatorEntry
entry_of key addr = record { public_key = key; ingress = addr; egress = addr.ip }

module _ (key_from_seed : ℕ → PublicKey) where
  -- The entries of `n` validators from `i` on, or a panic.
  unfoldable pub devnet_entries : ConsensusArgs → ℕ → ℕ → Option (List ValidatorEntry)
  unfolding addr_at
  devnet_entries args i zero = some []
  devnet_entries args i (suc n) =
      let rest = devnet_entries args (suc i) n in
      elim (addr_at args i) [
        | none ↦ none
        | some addr ↦ elim rest [
          | none ↦ none
          | some entries ↦ some (entry_of (key_from_seed i) addr ∷ entries)
        ]
      ]

  abbrev pub derived_set : Option (List ValidatorEntry) → Option ValidatorSet
  derived_set none = none
  derived_set (some entries) = some (from_entries entries)

  -- `1 + args.peers.len() as u8`: the addition panics on overflow if the build checks it, and wraps
  -- around otherwise.
  unfoldable pub build_validator_set : Bool → ConsensusArgs → ValidatorSet → Option ValidatorSet
  unfolding devnet_entries
  build_validator_set overflow_checks args genesis_validators =
      let num_validators = 1 + wrap_u8 (length args.peers) in
      if not (set_is_empty genesis_validators)
      then some genesis_validators
      else if overflow_checks && ltb 255 num_validators
      then none
      else derived_set (devnet_entries args 0 (wrap_u8 num_validators))
