-- ===== src/Cli/Devnet/Agreement.antt =====
-- All nodes of a devnet derive the same validator set.
use allegro.Prelude.{
  ℕ, zero, suc, ◌+◌, ◌≤◌, ◌<◌, ◌≡◌, refl, ap, ◌∙◌, Bool, List, [], ◌∷◌, none, some, length,
  get_elem?, drop, nat_eqb, wrap_u8, arith, inl, inr, Bool-cases, Option-cases, nat_eqb_iff,
  drop-cons, get-length,
}
use allegro.Primitives.Digest.{PublicKey}
use allegro.Consensus.Validators.{SocketAddr, from_entries, new_set}
use allegro.Consensus.Validators.Entries.{indexed_entries}
use allegro.Cli.Args.{ConsensusArgs}
use allegro.Cli.Devnet.{addr_at, devnet_entries, build_validator_set}

-- A table of addresses without the one at an index: the peers of that node, in order.
abbrev pub without : ℕ → List SocketAddr → List SocketAddr
without k [] = []
without zero (a ∷ table) = table
without (suc k) (a ∷ table) = a ∷ without k table

without-before :
    (k i : ℕ) (table : List SocketAddr) → i < k → get_elem? (without k table) i ≡ get_elem? table i
without-before k i [] h = refl
without-before zero i (a ∷ table) h = absurd (omega arith)
without-before (suc k) zero (a ∷ table) h = refl
without-before (suc k) (suc i) (a ∷ table) h = without-before k i table (omega arith)

without-after :
    (k i : ℕ) (table : List SocketAddr)
    → k ≤ i
    → get_elem? (without k table) i ≡ get_elem? table (suc i)
without-after k i [] h = refl
without-after zero i (a ∷ table) h = refl
without-after (suc k) zero (a ∷ table) h = absurd (omega arith)
without-after (suc k) (suc i) (a ∷ table) h = without-after k i table (omega arith)

without-length :
    (k : ℕ) (table : List SocketAddr)
    → k < length table
    → length (without k table) + 1 ≡ length table
without-length k [] h = absurd (omega arith)
without-length zero (a ∷ table) h = omega arith
without-length (suc k) (a ∷ table) h = omega (arith, without-length k table (omega arith))

-- A node of a devnet is started with its own entry of the table, and the others as its peers.
pub record Placed (table : List SocketAddr) (args : ConsensusArgs) : Type 0 where
  pub inside : args.node < length table
  pub own : args.listen ≡ get_elem? table args.node
  pub others : args.peers ≡ without args.node table

addr_at-table :
    (table : List SocketAddr) (args : ConsensusArgs) (i : ℕ)
    → Placed table args
    → addr_at args i ≡ get_elem? table i
unfolding addr_at
addr_at-table table args zero p =
    ground
      (arith, p.own, p.inside, ap (λ l. get_elem? l 0) p.others, without-before args.node 0 table)
addr_at-table table args (suc i) p = ground (
  arith,
  p.own,
  ap (λ l. get_elem? l (suc i)) p.others,
  ap (λ l. get_elem? l i) p.others,
  without-before args.node (suc i) table,
  without-after args.node i table,
)

addr_at-past :
    (args : ConsensusArgs) → length args.peers < args.node → addr_at args (length args.peers) ≡ none
unfolding addr_at
addr_at-past args outside = ground (arith, get-length args.peers)

module _ (key_from_seed : ℕ → PublicKey) where
  devnet_entries-table :
      (table rest : List SocketAddr) (args : ConsensusArgs) (i : ℕ)
      → Placed table args
      → drop i table ≡ rest
      → devnet_entries key_from_seed args i (length rest)
        ≡ some (indexed_entries key_from_seed i rest)
  unfolding devnet_entries
  devnet_entries-table table [] args i p e = refl
  devnet_entries-table table (a ∷ rest) args i p e =
      let (here, later) = drop-cons i table a rest e in
      ground (
        arith,
        addr_at-table table args i p,
        here,
        devnet_entries-table table rest args (suc i) p later,
      )

  devnet_entries-panics :
      (args : ConsensusArgs) (i n j : ℕ)
      → i ≤ j
      → j < i + n
      → addr_at args j ≡ none
      → devnet_entries key_from_seed args i n ≡ none
  unfolding devnet_entries
  devnet_entries-panics args i zero j from to h = absurd (omega arith)
  devnet_entries-panics args i (suc n) j from to h = elim (Bool-cases (nat_eqb i j)) [
    | inl here ↦ ground (arith, ap (addr_at args) ((nat_eqb_iff i j).0 here))
    | inr later ↦ ground (
      arith,
      devnet_entries-panics args (suc i) n j (ground arith) (omega arith) h,
      Option-cases (addr_at args i),
    )
  ]

  -- For a table of at most 255 addresses, every node that is started with its index in the table,
  -- its own address and the other addresses in order as peers derives, without genesis validators,
  -- the set in which validator i has the key of seed i and the i-th address.
  pub build_validator_set_agrees :
      (overflow_checks : Bool) (table : List SocketAddr) (args : ConsensusArgs)
      → length table ≤ 255
      → Placed table args
      → build_validator_set key_from_seed overflow_checks args new_set
        ≡ some (from_entries (indexed_entries key_from_seed 0 table))
  unfolding build_validator_set
  build_validator_set_agrees overflow_checks table args small p =
      let count : length args.peers + 1 ≡ length table =
        ap (λ l. length l + 1) p.others ∙ without-length args.node table p.inside in
      let wrapped : wrap_u8 (1 + wrap_u8 (length args.peers)) ≡ length table = omega arith in
      ground (
        arith,
        wrapped,
        ap (devnet_entries key_from_seed args 0) wrapped,
        devnet_entries-table table table args 0 p refl,
      )

  -- Without genesis validators, a node whose index is greater than the number of its peers, which
  -- are fewer than 255, panics while it derives the validator set.
  pub build_validator_set_index_panics :
      (overflow_checks : Bool) (args : ConsensusArgs)
      → length args.peers < args.node
      → length args.peers < 255
      → build_validator_set key_from_seed overflow_checks args new_set ≡ none
  unfolding build_validator_set
  build_validator_set_index_panics overflow_checks args outside small =
      let count : wrap_u8 (1 + wrap_u8 (length args.peers)) ≡ length args.peers + 1 = omega arith in
      ground (
        arith,
        ap (devnet_entries key_from_seed args 0) count,
        devnet_entries-panics args 0 (length args.peers + 1) (length args.peers) (omega arith)
            (omega arith) (addr_at-past args outside),
      )
