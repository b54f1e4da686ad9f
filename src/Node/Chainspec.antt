-- ===== src/Node/Chainspec.antt =====
-- crates/node/src/chainspec.rs: the genesis file with embedded validators. Files, JSON, hex, keys and
-- socket addresses are parsed by libraries, a parameter.
pub mod Loading
use allegro.Prelude.{
  ℕ, List, [], ◌∷◌, Option, none, some, Result, ok, err, and_then, map_err, ok_or,
}
use Prim.Native.String.{String}
use allegro.Primitives.Digest.{Bytes, PublicKey}
use allegro.Consensus.Validators.{SocketAddr, ValidatorEntry, ValidatorSet, new_set, from_entries}

pub record ValidatorFileEntry : Type 0 where
  pub index : ℕ
  pub public_key : String
  pub ingress : String
  pub egress : String

-- The messages of the source, with what they show.
pub data LoadError : Type 0 where
  read_genesis_file : String → LoadError
  parse_genesis_json : String → LoadError
  parse_validators : String → LoadError
  parse_genesis_fields : String → LoadError
  invalid_hex : (index : ℕ) (public_key : String) → LoadError
  invalid_public_key : (index : ℕ) (cause : String) → LoadError
  invalid_ingress : (index : ℕ) (ingress : String) → LoadError
  invalid_egress : (index : ℕ) (egress : String) → LoadError

-- Text forms: `hex`, commonware's decoder of public keys, and `SocketAddr`.
pub record TextForms : Type 0 where
  pub hex_decode : String → Option Bytes
  pub decode_key : Bytes → Result PublicKey String
  pub parse_socket : String → Option SocketAddr

-- Files and JSON. `T` is the text of a file, `J` is a JSON value, `G` a genesis and `S` a chain spec; `remove_validators` is
-- `as_object_mut` and `remove` of the field.
pub record GenesisFiles (T J G S : Type 0) : Type 0 where
  pub read_to_string : String → Result T String
  pub from_str : T → Result J String
  pub remove_validators : J → Option J × J
  pub entries_from_value : J → Result (List ValidatorFileEntry) String
  pub genesis_from_value : J → Result G String
  pub from_genesis : G → S

module _ (text : TextForms) where
  -- The body of the loop over the entries.
  unfoldable pub parse_entry : ValidatorFileEntry → Result ValidatorEntry LoadError
  parse_entry e =
      and_then (ok_or (text.hex_decode e.public_key) (invalid_hex e.index e.public_key)) λ pk_bytes.
        and_then (map_err (invalid_public_key e.index) (text.decode_key pk_bytes)) λ public_key.
          and_then (ok_or (text.parse_socket e.ingress) (invalid_ingress e.index e.ingress))
            λ ingress.
              and_then (ok_or (text.parse_socket e.egress) (invalid_egress e.index e.egress))
                λ egress.
                  ok (record { public_key = public_key; ingress = ingress; egress = egress.ip })

  -- The loop, which ends at the first error.
  unfoldable pub parse_entries : List ValidatorFileEntry → Result (List ValidatorEntry) LoadError
  unfolding parse_entry
  parse_entries [] = ok []
  parse_entries (e ∷ entries) =
      and_then (parse_entry e)
        λ entry. and_then (parse_entries entries) λ parsed. ok (entry ∷ parsed)

  -- The validators of a file, which an old file has not.
  unfoldable pub validator_set_of : Option (List ValidatorFileEntry) → Result ValidatorSet LoadError
  unfolding parse_entries from_entries
  validator_set_of none = ok new_set
  validator_set_of (some entries) =
      and_then (parse_entries entries) λ parsed. ok (from_entries parsed)

module _ {T J G S : Type 0} (text : TextForms) (files : GenesisFiles T J G S) where
  -- `map(from_value).transpose()`.
  unfoldable pub entries_of : Option J → Result (Option (List ValidatorFileEntry)) LoadError
  entries_of none = ok none
  entries_of (some value) =
      and_then (map_err parse_validators (files.entries_from_value value))
        λ entries. ok (some entries)

  unfoldable pub load_chain_with_validators : String → Result (S × ValidatorSet) LoadError
  unfolding entries_of validator_set_of
  load_chain_with_validators path =
      and_then (map_err read_genesis_file (files.read_to_string path)) λ content.
        and_then (map_err parse_genesis_json (files.from_str content)) λ value.
          let (validators, rest) = files.remove_validators value in
          and_then (entries_of validators) λ entries.
            and_then (map_err parse_genesis_fields (files.genesis_from_value rest)) λ genesis.
              and_then (validator_set_of text entries)
                λ validator_set. ok (files.from_genesis genesis, validator_set)

  unfoldable pub chain_spec_from_genesis_json : String → Result S LoadError
  unfolding load_chain_with_validators
  chain_spec_from_genesis_json path =
      and_then (load_chain_with_validators path) λ (spec, _). ok spec
