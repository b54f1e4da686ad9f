-- ===== src/Xtask.antt =====
-- xtask/src/main.rs: the generator of a devnet's genesis file, the part that makes validators.
pub mod Sockets
pub mod RoundTrip
pub mod Output
use allegro.Prelude.{
  ℕ, zero, suc, ◌+◌, ◌-◌, ◌&&◌, List, [], ◌∷◌, Option, none, some, Result, ok, err, and_then, map,
  length, ltb, u16_max, wrap_u16, if◌then◌else◌,
}
use Prim.Native.String.{String}
use Prim.Native.String
use allegro.Primitives.Digest.{Bytes, PublicKey}
use allegro.Consensus.Validators.{SocketAddr}
use allegro.Node.Chainspec.{ValidatorFileEntry}

pub record GenesisCmd : Type 0 where
  pub validators : String
  pub base_port : ℕ
  pub chain_id : ℕ
  pub output : String

pub data XtaskError : Type 0 where
  exceeds_max_port : (base_port n : ℕ) → XtaskError
  invalid_validator_socket : String → XtaskError
  too_many_validators : ℕ → XtaskError
  create_failed : (output cause : String) → XtaskError
  derive_account : (i : ℕ) (cause : String) → XtaskError
  serialize_genesis : String → XtaskError
  serialize_validators : String → XtaskError
  pretty_genesis : String → XtaskError
  write_failed : (path cause : String) → XtaskError

-- What is called of the standard library, `hex` and commonware.
pub record Generators : Type 0 where
  pub parse_u16 : String → Option ℕ
  pub show_u16 : ℕ → String
  pub split_commas : String → List String
  pub trim : String → String
  pub parse_socket : String → Option SocketAddr
  pub show_socket : SocketAddr → String
  pub key_from_seed : ℕ → PublicKey
  pub hex_encode : Bytes → String

module _ (g : Generators) where
  -- `format!("127.0.0.1:{}", …)`.
  unfoldable pub local_socket : ℕ → String
  local_socket port = String.◌++◌ "127.0.0.1:" (g.show_u16 port)

  -- `n` sockets from a port on.
  unfoldable pub sockets_from : ℕ → ℕ → List String
  unfolding local_socket
  sockets_from port zero = []
  sockets_from port (suc n) = local_socket port ∷ sockets_from (suc port) n

  -- The sockets of a count; `checked_add` fails past 65535.
  unfoldable pub counted_sockets : ℕ → ℕ → Result (List String) XtaskError
  unfolding sockets_from
  counted_sockets base_port n =
      if ltb 0 n && ltb u16_max (base_port + (n - 1))
      then err (exceeds_max_port base_port n)
      else ok (sockets_from base_port n)

  unfoldable pub listed_socket : String → Result String XtaskError
  listed_socket s = elim (g.parse_socket (g.trim s)) [
    | none ↦ err (invalid_validator_socket (g.trim s))
    | some addr ↦ ok (g.show_socket addr)
  ]

  -- `map` and `collect` over the listed sockets, up to the first that does not parse.
  unfoldable pub listed_sockets : List String → Result (List String) XtaskError
  unfolding listed_socket
  listed_sockets [] = ok []
  listed_sockets (s ∷ ss) =
      and_then (listed_socket s)
        λ socket. and_then (listed_sockets ss) λ sockets. ok (socket ∷ sockets)

  unfoldable pub sockets_of : GenesisCmd → Result (List String) XtaskError
  unfolding counted_sockets listed_sockets
  sockets_of cmd = elim (g.parse_u16 cmd.validators) [
    | some n ↦ counted_sockets cmd.base_port n
    | none ↦ listed_sockets (g.split_commas cmd.validators)
  ]

  -- The loop over the sockets, from an index on; `ValidatorOutput` has the fields of the loader's
  -- entry.
  unfoldable pub outputs_from : ℕ → List String → List ValidatorFileEntry
  outputs_from i [] = []
  outputs_from i (socket ∷ sockets) =
      record {
        index = wrap_u16 i;
        public_key = g.hex_encode (g.key_from_seed (wrap_u16 i)).key_bytes;
        ingress = socket;
        egress = socket;
      }
      ∷ outputs_from (suc i) sockets

  -- `run`, from the sockets to the validators that it writes.
  unfoldable pub validators_of : GenesisCmd → Result (List ValidatorFileEntry) XtaskError
  unfolding sockets_of outputs_from
  validators_of cmd = and_then (sockets_of cmd) λ sockets.
      if ltb u16_max (length sockets)
      then err (too_many_validators (length sockets))
      else ok (outputs_from 0 sockets)
