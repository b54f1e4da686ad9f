-- ===== src/Xtask/Output.antt =====
-- xtask/src/main.rs: `run`, with the funded accounts, the genesis block and the files that it writes.
-- The derivation of accounts, JSON and the file system are parameters.
pub mod Loading
use allegro.Prelude.{
  ℕ, zero, suc, ◌*◌, ◌^◌, List, [], Option, none, some, Result, ok, and_then, map_err, KeyEq,
  bytes_eqb, bytes_eqb_iff, Call, lift, map_err_call, ◌>>=◌, ◌>>◌, replicate,
}
use allegro.Prelude.Dict.{Dict, insert}
use Prim.Native.String.{String}
use allegro.Primitives.Digest.{Bytes, B256, zero_hash}
use allegro.Node.Chainspec.{ValidatorFileEntry}
use allegro.Xtask.{
  GenesisCmd, Generators, XtaskError, create_failed, derive_account, serialize_genesis,
  serialize_validators, pretty_genesis, write_failed, validators_of,
}

instance abbrev bytes_eq : KeyEq Bytes
bytes_eq = record { same_key = bytes_eqb; same_iff = bytes_eqb_iff }

abbrev anvil_mnemonic : String
anvil_mnemonic = "test test test test test test test test test test test junk"

abbrev pub prefund_count : ℕ
prefund_count = 20

-- The fields of alloy's `ChainConfig` that the source sets.
pub record ChainConfig : Type 0 where
  pub chain_id : ℕ
  pub homestead_block : Option ℕ
  pub eip150_block : Option ℕ
  pub eip155_block : Option ℕ
  pub eip158_block : Option ℕ
  pub byzantium_block : Option ℕ
  pub constantinople_block : Option ℕ
  pub petersburg_block : Option ℕ
  pub istanbul_block : Option ℕ
  pub muir_glacier_block : Option ℕ
  pub berlin_block : Option ℕ
  pub london_block : Option ℕ
  pub arrow_glacier_block : Option ℕ
  pub gray_glacier_block : Option ℕ
  pub terminal_total_difficulty : Option ℕ
  pub merge_netsplit_block : Option ℕ
  pub shanghai_time : Option ℕ
  pub cancun_time : Option ℕ
  pub prague_time : Option ℕ
  pub osaka_time : Option ℕ
  pub amsterdam_time : Option ℕ

-- The field of alloy's `GenesisAccount` that the source sets.
pub record GenesisAccount : Type 0 where
  pub balance : ℕ

-- alloy's `Genesis`; an address is its bytes.
pub record Genesis : Type 0 where
  pub config : ChainConfig
  pub nonce : ℕ
  pub timestamp : ℕ
  pub extra_data : Bytes
  pub gas_limit : ℕ
  pub difficulty : ℕ
  pub mix_hash : B256
  pub coinbase : Bytes
  pub alloc : Dict Bytes GenesisAccount
  pub base_fee_per_gas : Option ℕ
  pub excess_blob_gas : Option ℕ
  pub blob_gas_used : Option ℕ
  pub number : Option ℕ
  pub parent_hash : Option B256

-- All forks at the genesis.
unfoldable pub chain_config : GenesisCmd → ChainConfig
chain_config cmd = record {
  chain_id = cmd.chain_id;
  homestead_block = some 0;
  eip150_block = some 0;
  eip155_block = some 0;
  eip158_block = some 0;
  byzantium_block = some 0;
  constantinople_block = some 0;
  petersburg_block = some 0;
  istanbul_block = some 0;
  muir_glacier_block = some 0;
  berlin_block = some 0;
  london_block = some 0;
  arrow_glacier_block = some 0;
  gray_glacier_block = some 0;
  terminal_total_difficulty = some 0;
  merge_netsplit_block = none;
  shanghai_time = some 0;
  cancun_time = some 0;
  prague_time = some 0;
  osaka_time = some 0;
  amsterdam_time = none;
}

unfoldable pub genesis_of : GenesisCmd → Dict Bytes GenesisAccount → Genesis
unfolding chain_config
genesis_of cmd alloc = record {
  config = chain_config cmd;
  nonce = 66;
  timestamp = 0;
  extra_data = [];
  gas_limit = 30000000;
  difficulty = 0;
  mix_hash = zero_hash;
  coinbase = replicate 20 0;
  alloc = alloc;
  base_fee_per_gas = none;
  excess_blob_gas = none;
  blob_gas_used = none;
  number = none;
  parent_hash = none;
}

-- What is called of alloy's wallet, serde_json and the file system. `T` is the text of a file, `J` a JSON value, `F` the
-- state of the file system; `insert_validators` is `as_object_mut` and `insert` of the field.
pub record Outputs (T J F : Type 0) : Type 0 where
  pub account : String → ℕ → Result Bytes String
  pub genesis_to_value : Genesis → Result J String
  pub validators_to_value : List ValidatorFileEntry → Result J String
  pub insert_validators : J → J → J
  pub to_string_pretty : J → Result T String
  pub validators_to_string : List ValidatorFileEntry → Result T String
  pub join : String → String → String
  pub create_dir_all : String → Call F (Unit {0}) String
  pub write : String → T → Call F (Unit {0}) String

module _ {T J F : Type 0} (g : Generators) (out : Outputs T J F) where
  -- The loop over the accounts, from an index on.
  unfoldable pub funded :
      ℕ → ℕ → Dict Bytes GenesisAccount → Result (Dict Bytes GenesisAccount) XtaskError
  funded zero i alloc = ok alloc
  funded (suc n) i alloc =
      and_then (map_err (derive_account i) (out.account anvil_mnemonic i))
        λ addr. funded n (suc i) (insert alloc addr (record { balance = 10000000000000000000000 }))

  -- The text of the genesis file, with the validators as a field.
  unfoldable pub genesis_json : Genesis → List ValidatorFileEntry → Result T XtaskError
  genesis_json genesis validators =
      and_then (map_err serialize_genesis (out.genesis_to_value genesis)) λ genesis_value.
        and_then (map_err serialize_validators (out.validators_to_value validators))
          λ validators_value.
            map_err pretty_genesis
              (out.to_string_pretty (out.insert_validators genesis_value validators_value))

  unfoldable pub write_to : String → T → Call F (Unit {0}) XtaskError
  write_to path text = map_err_call (write_failed path) (out.write path text)

  unfoldable pub write_files :
      GenesisCmd → Genesis → List ValidatorFileEntry → Call F (Unit {0}) XtaskError
  unfolding genesis_json write_to
  write_files cmd genesis validators = do
    text ← lift (genesis_json genesis validators)
    write_to (out.join cmd.output "genesis.json") text
    val_json ← lift (map_err serialize_validators (out.validators_to_string validators))
    write_to (out.join cmd.output "validators.json") val_json

  -- `GenesisCmd::run`.
  unfoldable pub run : GenesisCmd → Call F (Unit {0}) XtaskError
  unfolding validators_of funded genesis_of write_files
  run cmd = do
    map_err_call (create_failed cmd.output) (out.create_dir_all cmd.output)
    validators ← lift (validators_of g cmd)
    alloc ← lift (funded prefund_count 0 [])
    write_files cmd (genesis_of cmd alloc) validators
