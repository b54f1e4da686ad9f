-- ===== src/Examples/XtaskTests.antt =====
-- The generator of a genesis file on concrete arguments.
use allegro.Prelude.{
  Option, Result, err, ok_or, ap, sym, and_then, ◌≡◌, refl, List, [], ◌∷◌, none, some, ok, arith,
}
use allegro.Prelude.Dict.{Dict, insert}
use allegro.Prelude.Equality.{bytes_eqb}
use allegro.Primitives.Digest.{Bytes, digest_eq, public_key_eq}
use allegro.Consensus.Validators.{SocketAddr, from_entries}
use allegro.Consensus.Validators.Entries.{indexed_entries}
use allegro.Node.Chainspec.{GenesisFiles, ValidatorFileEntry, load_chain_with_validators}
use allegro.Xtask.{GenesisCmd, validators_of, sockets_of, counted_sockets, sockets_from}
use allegro.Xtask.RoundTrip.{AsksFor}
use allegro.Xtask.Output
use allegro.Xtask.Output.{
  Genesis, GenesisAccount, Outputs, prefund_count, funded, genesis_of, genesis_json, write_to,
  write_files,
}
use allegro.Xtask.Output.Loading.{Keeps, files_in, load-run}
use Prim.Native.String.{String}
use Prim.Native.String
use Prim.Native.Nat.{Ordering}
use allegro.Examples.Texts.{text_forms, generators, key_from_seed, text_forms-Reads}
use allegro.Examples.Scenario.{validators}

abbrev cmd : GenesisCmd
cmd = record { validators = "2"; base_port = 13000; chain_id = 1337; output = "./devnet" }

-- JSON values, which are their own texts.
data Json : Type 0 where
  genesis_value : Genesis → Json
  validators_value : List ValidatorFileEntry → Json
  with_validators : Json → Json → Json

abbrev removed_validators : Json → Option Json × Json
removed_validators (with_validators v j) = (some j, v)
removed_validators v = (none, v)

abbrev listed_validators : Json → Result (List ValidatorFileEntry) String
listed_validators (validators_value validators) = ok validators
listed_validators v = err "no list"

abbrev genesis_in : Json → Result Genesis String
genesis_in (genesis_value genesis) = ok genesis
genesis_in v = err "no genesis"

-- A directory with a genesis file, and one that is not kept.
abbrev written_file : String → Json → Option Json → Result (Unit {0}) String × Option Json
written_file path text w = elim (String.compare path "genesis.json") [
  | Ordering.eq ↦ (ok tt, some text)
  | _ ↦ (ok tt, w)
]

abbrev outputs : Outputs Json Json (Option Json)
outputs = record {
  account = λ mnemonic i. ok (i ∷ []);
  genesis_to_value = λ genesis. ok (genesis_value genesis);
  validators_to_value = λ validators. ok (validators_value validators);
  insert_validators = with_validators;
  to_string_pretty = λ v. ok v;
  validators_to_string = λ validators. ok (validators_value validators);
  join = λ dir name. name;
  create_dir_all = λ dir w. (ok tt, w);
  write = written_file;
}

abbrev json_files : GenesisFiles Json Json Genesis Genesis
json_files = record {
  read_to_string = λ path. err "no file";
  from_str = λ text. ok text;
  remove_validators = removed_validators;
  entries_from_value = listed_validators;
  genesis_from_value = genesis_in;
  from_genesis = λ genesis. genesis;
}

abbrev read_file : Option Json → String → Result Json String
read_file w path = ok_or w "no file"

removed_again :
    (genesis : Genesis) (v j : Json)
    → ◌≡◌ {A = Result Json String} (ok (genesis_value genesis)) (ok v)
    → removed_validators (with_validators v j) ≡ (some j, v)
removed_again genesis v j e = refl

outputs-Keeps : Keeps outputs json_files read_file
outputs-Keeps = record {
  written = λ dir text w e. refl;
  kept = λ dir text w. refl;
  parsed = λ v text e. sym e;
  removed = removed_again;
  genesis_back = λ genesis v e. ap (λ r. and_then r genesis_in) (sym e);
  validators_back = λ validators j e. ap (λ r. and_then r listed_validators) (sym e);
}

load-run_example :
    (addrs : List SocketAddr) × AsksFor generators cmd addrs
    × (alloc : Dict Bytes GenesisAccount) × (funded generators outputs prefund_count 0 []
        ≡ ok alloc)
    × (load_chain_with_validators text_forms
          (files_in json_files read_file (Output.run generators outputs cmd none).1)
          "genesis.json"
        ≡ ok (genesis_of cmd alloc, from_entries (indexed_entries key_from_seed 0 addrs)))
unfolding Output.run validators_of sockets_of counted_sockets sockets_from funded write_files
    genesis_json write_to insert bytes_eqb
load-run_example =
    load-run generators text_forms outputs json_files read_file outputs-Keeps text_forms-Reads cmd
      none (omega arith) refl
