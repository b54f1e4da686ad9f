-- ===== src/Cli/Genesis.antt =====
-- bin/allegro/src/main.rs: the parser of `--chain`, which leaves the path of the genesis file in
-- `GENESIS_PATH`, and what `main` takes of it.
use allegro.Prelude.{
  ◌≡◌, refl, ap, ◌∙◌, Bool, true, false, Option, none, some, Result, ok, err, arith, if◌then◌else◌,
  and_then, inl, inr, Bool-cases,
}
use Prim.Native.Nat.{Ordering}
use Prim.Native.String.{String}
use Prim.Native.String
use allegro.Consensus.Validators.{ValidatorSet, new_set}
use allegro.Node.Chainspec.{TextForms, GenesisFiles, LoadError, load_chain_with_validators}

abbrev pub is_dev : String → Bool
is_dev s = elim (String.compare s "dev") [ Ordering.eq ↦ true | _ ↦ false ]

module _ {T J G S : Type 0} (text : TextForms) (files : GenesisFiles T J G S)
    (dev_chainspec : S) where
  -- The parser, on a loaded file.
  unfoldable pub parsed_chain :
      String
      → Result (S × ValidatorSet) LoadError
      → Option String
      → Result S LoadError × Option String
  parsed_chain s (ok (spec, validators)) path = (ok spec, some s)
  parsed_chain s (err e) path = (err e, path)

  -- `AllegroChainSpecParser::parse`, with the state of `GENESIS_PATH`.
  unfoldable pub parse : String → Option String → Result S LoadError × Option String
  unfolding parsed_chain
  parse s path =
      if is_dev s
      then (ok dev_chainspec, none)
      else parsed_chain s (load_chain_with_validators text files s) path

  -- The genesis validators of `main`, which takes the path out.
  unfoldable pub genesis_validators : Option String → Result ValidatorSet LoadError × Option String
  genesis_validators none = (ok new_set, none)
  genesis_validators (some path) = (
    and_then (load_chain_with_validators text files path) λ (spec, validators). ok validators,
    none,
  )

  -- What `main` has after `--chain` was parsed: spec and validators of one file, or of the dev chain.
  pub data Chosen (s : String) (spec : S) : Result ValidatorSet LoadError → Type 0 where
    dev_chain : is_dev s ≡ true → spec ≡ dev_chainspec → Chosen s spec (ok new_set)
    genesis_file :
        (validators : ValidatorSet)
        → is_dev s ≡ false
        → load_chain_with_validators text files s ≡ ok (spec, validators)
        → Chosen s spec (ok validators)

  parsed_chain-Chosen :
      (s : String) (spec : S) (r : Result (S × ValidatorSet) LoadError) (path : Option String)
      → is_dev s ≡ false
      → load_chain_with_validators text files s ≡ r
      → (parsed_chain s r path).0 ≡ ok spec
      → Chosen s spec (genesis_validators (parsed_chain s r path).1).0
  unfolding parsed_chain genesis_validators
  parsed_chain-Chosen s spec (err e) path other loaded h = cc
  parsed_chain-Chosen s spec (ok (given, validators)) path other loaded h =
      let same : given ≡ spec = ground arith in
      rw loaded (genesis_file validators other (loaded ∙ ap (λ x. ok (x, validators)) same))

  -- If the chain argument parses to a chain spec, then the validators that the node takes
  -- afterwards are those of the genesis file that the spec is of, or none for the dev chain,
  -- whatever path was left before.
  pub parse-Chosen :
      (s : String) (path : Option String) (spec : S)
      → (parse s path).0 ≡ ok spec
      → Chosen s spec (genesis_validators (parse s path).1).0
  unfolding parse genesis_validators
  parse-Chosen s path spec h = elim (Bool-cases (is_dev s)) [
    | inl dev ↦ rw (parse, dev) (dev_chain dev (ground arith))
    | inr other ↦
        rw (parse, other)
          (parsed_chain-Chosen s spec (load_chain_with_validators text files s) path other refl
            (ground arith))
  ]
