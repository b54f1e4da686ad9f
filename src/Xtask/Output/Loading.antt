-- ===== src/Xtask/Output/Loading.antt =====
-- The node loads the genesis file that the generator wrote.
use allegro.Prelude.{
  ◌≤◌, ◌≡◌, refl, ap, ◌∙◌, List, [], some, Result, ok, and_then, map_err, u16_max, >>=-eq-ok,
  >>=-at-ok, map_err-eq-ok, and_then-eq-ok, map_err_call, lift, Call, ◌>>=◌, ◌>>◌,
}
use allegro.Prelude.Dict.{Dict}
use Prim.Native.String.{String}
use allegro.Primitives.Digest.{Bytes}
use allegro.Consensus.Validators.{SocketAddr, from_entries}
use allegro.Consensus.Validators.Entries.{indexed_entries}
use allegro.Node.Chainspec.{
  TextForms, GenesisFiles, ValidatorFileEntry, entries_of, validator_set_of,
  load_chain_with_validators,
}
use allegro.Xtask.{
  GenesisCmd, Generators, XtaskError, create_failed, write_failed, serialize_genesis,
  serialize_validators, pretty_genesis, validators_of,
}
use allegro.Xtask.RoundTrip.{Reads, AsksFor, parse_entries-validators_of}
use allegro.Xtask.Output.{
  GenesisAccount, Genesis, Outputs, prefund_count, funded, genesis_of, genesis_json, write_to,
  write_files, run,
}

-- Documented behaviour of the file system and of serde_json: the genesis file is read as it was
-- written, the other file of the directory leaves it, and JSON is parsed as it was serialized.
pub record Keeps {T J F Spec : Type 0} (out : Outputs T J F) (files : GenesisFiles T J Genesis Spec)
    (read : F → String → Result T String) : Type 0 where
  pub written :
      (dir : String) (text : T) (w : F)
      → let path = out.join dir "genesis.json" in
        (out.write path text w).0 ≡ ok tt → read (out.write path text w).1 path ≡ ok text
  pub kept :
      (dir : String) (text : T) (w : F)
      → let path = out.join dir "genesis.json" in
        read (out.write (out.join dir "validators.json") text w).1 path ≡ read w path
  pub parsed : (v : J) (text : T) → out.to_string_pretty v ≡ ok text → files.from_str text ≡ ok v
  pub removed :
      (genesis : Genesis) (v j : J)
      → out.genesis_to_value genesis ≡ ok v
      → files.remove_validators (out.insert_validators v j) ≡ (some j, v)
  pub genesis_back :
      (genesis : Genesis) (v : J)
      → out.genesis_to_value genesis ≡ ok v
      → files.genesis_from_value v ≡ ok genesis
  pub validators_back :
      (validators : List ValidatorFileEntry) (j : J)
      → out.validators_to_value validators ≡ ok j
      → files.entries_from_value j ≡ ok validators

-- The loader's files, in a state of the file system.
abbrev pub files_in :
    {T J F Spec : Type 0}
    → GenesisFiles T J Genesis Spec
    → (F → String → Result T String)
    → F
    → GenesisFiles T J Genesis Spec
files_in files read w = record files { read_to_string = read w }

module _ {T J F Spec : Type 0} (g : Generators) (text : TextForms) (out : Outputs T J F)
    (files : GenesisFiles T J Genesis Spec) (read : F → String → Result T String)
    (keeps : Keeps out files read) where
  load-genesis_json :
      (w : F) (path : String) (json : T) (genesis : Genesis) (validators : List ValidatorFileEntry)
      → genesis_json g out genesis validators ≡ ok json
      → read w path ≡ ok json
      → load_chain_with_validators text (files_in files read w) path
        ≡ and_then
            (validator_set_of text (some validators))
            λ set. ok (files.from_genesis genesis, set)
  unfolding load_chain_with_validators entries_of genesis_json
  load-genesis_json w path json genesis validators made stored =
      let (v, serialized, h1) =
        and_then-eq-ok (map_err serialize_genesis (out.genesis_to_value genesis)) _ made in
      let v_eq = map_err-eq-ok serialize_genesis (out.genesis_to_value genesis) serialized in
      let (j, listed, h2) =
        and_then-eq-ok (map_err serialize_validators (out.validators_to_value validators)) _ h1 in
      let j_eq = map_err-eq-ok serialize_validators (out.validators_to_value validators) listed in
      let text_eq =
        map_err-eq-ok pretty_genesis (out.to_string_pretty (out.insert_validators v j)) h2 in
      rw
        (
          load_chain_with_validators,
          stored,
          keeps.parsed (out.insert_validators v j) json text_eq,
          keeps.removed genesis v j v_eq,
          keeps.validators_back validators j j_eq,
          keeps.genesis_back genesis v v_eq,
        )
        refl

  read-write_files :
      (cmd : GenesisCmd) (genesis : Genesis) (validators : List ValidatorFileEntry) (w : F)
      → (write_files g out cmd genesis validators w).0 ≡ ok tt
      → (json : T) × (genesis_json g out genesis validators ≡ ok json)
        × (read (write_files g out cmd genesis validators w).1 (out.join cmd.output "genesis.json")
            ≡ ok json)
  unfolding write_files write_to
  read-write_files cmd genesis validators w h =
      let path = out.join cmd.output "genesis.json" in
      let other = out.join cmd.output "validators.json" in
      let texts : Call F T XtaskError =
        lift (map_err serialize_validators (out.validators_to_string validators)) in
      let second : Call F (Unit {0}) XtaskError = texts >>= write_to g out other in
      let (json, made, h1) =
        >>=-eq-ok (lift (genesis_json g out genesis validators))
          (λ json. write_to g out path json >> second) w h in
      let (done, wrote, h2) = >>=-eq-ok (write_to g out path json) (λ _. second) w h1 in
      let w1 = (out.write path json w).1 in
      let (val_json, listed, h3) = >>=-eq-ok texts (write_to g out other) w1 h2 in
      let wrote_eq = map_err-eq-ok (write_failed path) (out.write path json w).0 wrote in
      let same =
        >>=-at-ok (lift (genesis_json g out genesis validators))
          (λ json. write_to g out path json >> second) w made
        ∙ >>=-at-ok (write_to g out path json) (λ _. second) w wrote
        ∙ >>=-at-ok texts (write_to g out other) w1 listed in
      (
        json,
        made,
        ap (λ s. read s.1 path) same
            ∙ keeps.kept cmd.output val_json w1
            ∙ keeps.written cmd.output json w wrote_eq,
      )

  -- If the generator runs without an error, for a base port in 16 bits, then the node's loader
  -- reads the genesis file that it wrote without an error: as the chain of the generator's genesis
  -- block with its funded accounts, and as the validator set of the key of seed i and the i-th
  -- address that the command asks for. These addresses are, if the command gives a number, as many
  -- ports of 127.0.0.1, one after the other from the base port, and else the parsed addresses of
  -- its list between commas. Text forms are read as they are written, JSON is parsed as it was
  -- serialized, and the file system keeps the genesis file.
  pub load-run :
      Reads g text
      → (cmd : GenesisCmd) (w : F) → cmd.base_port ≤ u16_max
      → (run g out cmd w).0 ≡ ok tt
      → (addrs : List SocketAddr) × AsksFor g cmd addrs
        × (alloc : Dict Bytes GenesisAccount) × (funded g out prefund_count 0 [] ≡ ok alloc)
        × (load_chain_with_validators text
              (files_in files read (run g out cmd w).1)
              (out.join cmd.output "genesis.json")
            ≡ ok (
              files.from_genesis (genesis_of cmd alloc),
              from_entries (indexed_entries g.key_from_seed 0 addrs),
            ))
  unfolding run validator_set_of
  load-run reads cmd w fits h =
      let written : List ValidatorFileEntry
          → Dict Bytes GenesisAccount
          → Call F (Unit {0}) XtaskError =
        λ validators alloc. write_files g out cmd (genesis_of cmd alloc) validators in
      let paid_for : List ValidatorFileEntry → Call F (Unit {0}) XtaskError =
        λ validators. lift (funded g out prefund_count 0 []) >>= written validators in
      let (created, made_dir, h1) =
        >>=-eq-ok (map_err_call (create_failed cmd.output) (out.create_dir_all cmd.output))
          (λ _. lift (validators_of g cmd) >>= paid_for) w h in
      let w1 = (out.create_dir_all cmd.output w).1 in
      let (validators, listed, h2) = >>=-eq-ok (lift (validators_of g cmd)) paid_for w1 h1 in
      let (alloc, paid, h3) =
        >>=-eq-ok (lift (funded g out prefund_count 0 [])) (written validators) w1 h2 in
      let genesis = genesis_of cmd alloc in
      let (json, made, stored) = read-write_files cmd genesis validators w1 h3 in
      let (addrs, asks, count, parsed) =
        parse_entries-validators_of g text reads cmd validators fits listed in
      let same =
        >>=-at-ok (map_err_call (create_failed cmd.output) (out.create_dir_all cmd.output))
          (λ _. lift (validators_of g cmd) >>= paid_for) w made_dir
        ∙ >>=-at-ok (lift (validators_of g cmd)) paid_for w1 listed
        ∙ >>=-at-ok (lift (funded g out prefund_count 0 [])) (written validators) w1 paid in
      (
        addrs,
        asks,
        alloc,
        paid,
        load-genesis_json (run g out cmd w).1 (out.join cmd.output "genesis.json") json genesis
              validators made
              (ap (λ s. read s.1 (out.join cmd.output "genesis.json")) same ∙ stored)
            ∙ rw parsed refl,
      )
