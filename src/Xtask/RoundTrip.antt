-- ===== src/Xtask/RoundTrip.antt =====
-- The node loads the validators that the generator wrote.
use allegro.Prelude.{
  ℕ, zero, suc, ◌+◌, ◌≤◌, ◌≡◌, refl, sym, ap, ◌∙◌, List, [], ◌∷◌, none, some, ok, err, and_then,
  and_then-eq-ok, length, ltb, u16_max, arith, inl, inr, Option-cases, if◌then◌else◌, wrap_u16,
  subst,
}
use Prim.Native.String.{String}
use allegro.Primitives.Digest.{Bytes}
use allegro.Consensus.Validators.{SocketAddr, IpAddr, v4}
use allegro.Consensus.Validators.Entries.{indexed_entries}
use allegro.Node.Chainspec.{TextForms, ValidatorFileEntry, parse_entry, parse_entries}
use allegro.Xtask.{
  Generators, GenesisCmd, too_many_validators, local_socket, sockets_from, counted_sockets,
  listed_socket, listed_sockets, sockets_of, outputs_from, validators_of,
}
use allegro.Xtask.Sockets.{counted_sockets-same, counted_sockets_iff}

-- 127.0.0.1.
abbrev pub localhost : IpAddr
localhost = v4 2130706433

-- Documented behaviour of the text forms: what is written is read again.
pub record Reads (g : Generators) (text : TextForms) : Type 0 where
  pub hex : (b : Bytes) → text.hex_decode (g.hex_encode b) ≡ some b
  pub key : (i : ℕ) → text.decode_key (g.key_from_seed i).key_bytes ≡ ok (g.key_from_seed i)
  pub socket : (addr : SocketAddr) → text.parse_socket (g.show_socket addr) ≡ some addr
  pub local_port :
      (port : ℕ)
      → port ≤ u16_max
      → text.parse_socket (local_socket g port) ≡ some (record { ip = localhost; port = port })

-- The local addresses of this many ports, from this one.
abbrev pub local_addresses : ℕ → ℕ → List SocketAddr
local_addresses port zero = []
local_addresses port (suc n) = record { ip = localhost; port = port } ∷ local_addresses (suc port) n

module _ (g : Generators) where
  -- The trimmed texts of a list are these addresses.
  pub data Listed : List String → List SocketAddr → Type 0 where
    none_listed : Listed [] []
    one_listed :
        {s : String} {ss : List String} {a : SocketAddr} {addrs : List SocketAddr}
        → g.parse_socket (g.trim s) ≡ some a
        → Listed ss addrs
        → Listed (s ∷ ss) (a ∷ addrs)

  -- The addresses that a command asks for: as many local ports as the number that it gives, from
  -- the base port, or those that it lists between commas.
  pub data AsksFor (cmd : GenesisCmd) : List SocketAddr → Type 0 where
    counted :
        (n : ℕ)
        → g.parse_u16 cmd.validators ≡ some n
        → AsksFor cmd (local_addresses cmd.base_port n)
    listed :
        {addrs : List SocketAddr}
        → g.parse_u16 cmd.validators ≡ none
        → Listed (g.split_commas cmd.validators) addrs
        → AsksFor cmd addrs

-- The sockets are the texts of the addresses.
pub data Reading (text : TextForms) : List String → List SocketAddr → Type 0 where
  none_left : Reading text [] []
  one_more :
      {s : String} {ss : List String} {a : SocketAddr} {addrs : List SocketAddr}
      → text.parse_socket s ≡ some a
      → Reading text ss addrs
      → Reading text (s ∷ ss) (a ∷ addrs)

module _ (g : Generators) (text : TextForms) (reads : Reads g text) where
  sockets_from-Reading :
      (port n : ℕ)
      → port + n ≤ u16_max + 1
      → Reading text (sockets_from g port n) (local_addresses port n)
  unfolding sockets_from
  sockets_from-Reading port zero fits = none_left
  sockets_from-Reading port (suc n) fits =
      one_more (reads.local_port port (omega arith))
        (sockets_from-Reading (suc port) n (omega arith))

  listed_socket-shown :
      (s socket : String)
      → listed_socket g s ≡ ok socket
      → (a : SocketAddr) × (socket ≡ g.show_socket a) × (g.parse_socket (g.trim s) ≡ some a)
  unfolding listed_socket
  listed_socket-shown s socket h = elim (Option-cases (g.parse_socket (g.trim s))) [
    | inl bad ↦ absurd (ground arith)
    | inr (a, good) ↦ (a, ground arith, good)
  ]

  listed_sockets-Reading :
      (texts sockets : List String)
      → listed_sockets g texts ≡ ok sockets
      → (addrs : List SocketAddr) × Reading text sockets addrs × Listed g texts addrs
  unfolding listed_sockets listed_socket
  listed_sockets-Reading [] sockets h =
      ([], subst (λ l. Reading text l []) (ground arith) none_left, none_listed)
  listed_sockets-Reading (s ∷ texts) sockets h =
      let (socket, first, h1) =
        and_then-eq-ok (listed_socket g s)
          (λ socket. and_then (listed_sockets g texts) λ rest. ok (socket ∷ rest)) h in
      let (rest, later, h2) =
        and_then-eq-ok (listed_sockets g texts) (λ rest. ok (socket ∷ rest)) h1 in
      let (a, shown, trimmed) = listed_socket-shown s socket first in
      let (addrs, reading, all) = listed_sockets-Reading texts rest later in
      let whole : sockets ≡ socket ∷ rest = ground arith in
      let read : text.parse_socket socket ≡ some a = ap text.parse_socket shown ∙ reads.socket a in
      (
        a ∷ addrs,
        subst (λ l. Reading text l (a ∷ addrs)) (sym whole) (one_more read reading),
        one_listed trimmed all,
      )

  Reading-length :
      (sockets : List String) (addrs : List SocketAddr)
      → Reading text sockets addrs
      → length sockets ≡ length addrs
  Reading-length [] [] none_left = refl
  Reading-length (s ∷ sockets) (a ∷ addrs) (one_more h rest) =
      ap suc (Reading-length sockets addrs rest)
  Reading-length [] (a ∷ addrs) x = elim x [ ]
  Reading-length (s ∷ sockets) [] x = elim x [ ]

  outputs_from-length :
      (i : ℕ) (sockets : List String) → length (outputs_from g i sockets) ≡ length sockets
  unfolding outputs_from
  outputs_from-length i [] = refl
  outputs_from-length i (s ∷ sockets) = ap suc (outputs_from-length (suc i) sockets)

  sockets_of-Reading :
      (cmd : GenesisCmd) (sockets : List String)
      → cmd.base_port ≤ u16_max
      → sockets_of g cmd ≡ ok sockets
      → (addrs : List SocketAddr) × Reading text sockets addrs × AsksFor g cmd addrs
  unfolding sockets_of
  sockets_of-Reading cmd sockets fits h = elim (Option-cases (g.parse_u16 cmd.validators)) [
    | inl no_number ↦
        let (addrs, reading, all) =
          listed_sockets-Reading (g.split_commas cmd.validators) sockets (ground arith) in
        (addrs, reading, listed no_number all)
    | inr (n, count) ↦
        let made : counted_sockets g cmd.base_port n ≡ ok sockets = ground arith in
        let same = counted_sockets-same g cmd.base_port n sockets made in
        let reading =
          sockets_from-Reading cmd.base_port n
            ((counted_sockets_iff g cmd.base_port n fits).0 (made ∙ ap ok same)) in
        (
          local_addresses cmd.base_port n,
          subst (λ l. Reading text l (local_addresses cmd.base_port n)) (sym same) reading,
          counted n count,
        )
  ]

  parse_entries-outputs_from :
      (i : ℕ) (sockets : List String) (addrs : List SocketAddr)
      → i + length sockets ≤ u16_max + 1
      → Reading text sockets addrs
      → parse_entries text (outputs_from g i sockets) ≡ ok (indexed_entries g.key_from_seed i addrs)
  unfolding parse_entries parse_entry outputs_from
  parse_entries-outputs_from i [] [] fits none_left = refl
  parse_entries-outputs_from i (s ∷ sockets) (a ∷ addrs) fits (one_more h rest) =
      let seed : wrap_u16 i ≡ i = omega arith in
      ground (
        arith,
        seed,
        h,
        reads.hex (g.key_from_seed i).key_bytes,
        reads.key i,
        parse_entries-outputs_from (suc i) sockets addrs (omega arith) rest,
      )
  parse_entries-outputs_from i [] (a ∷ addrs) fits x = elim x [ ]
  parse_entries-outputs_from i (s ∷ sockets) [] fits x = elim x [ ]

  -- The validators that the generator writes, for a base port in 16 bits, are loaded without an
  -- error, as one entry for each address that the command asks for, with the key of the seed of its index. The
  -- text forms of sockets, keys and hex are read as they are written.
  pub parse_entries-validators_of :
      (cmd : GenesisCmd) (outputs : List ValidatorFileEntry)
      → cmd.base_port ≤ u16_max
      → validators_of g cmd ≡ ok outputs
      → (addrs : List SocketAddr) × AsksFor g cmd addrs
        × (length outputs ≡ length addrs)
        × (parse_entries text outputs ≡ ok (indexed_entries g.key_from_seed 0 addrs))
  unfolding validators_of
  parse_entries-validators_of cmd outputs fits h =
      let (sockets, made, h1) =
        and_then-eq-ok (sockets_of g cmd)
          (λ sockets.
            if ltb u16_max (length sockets)
            then err (too_many_validators (length sockets))
            else ok (outputs_from g 0 sockets))
          h in
      let (addrs, reading, asks) = sockets_of-Reading cmd sockets fits made in
      let whole : outputs ≡ outputs_from g 0 sockets = ground arith in
      let few : length sockets ≤ u16_max = ground arith in
      (
        addrs,
        asks,
        ap length whole ∙ outputs_from-length 0 sockets ∙ Reading-length sockets addrs reading,
        ap (parse_entries text) whole
            ∙ parse_entries-outputs_from 0 sockets addrs (omega arith) reading,
      )
