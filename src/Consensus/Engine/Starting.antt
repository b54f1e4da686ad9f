-- ===== src/Consensus/Engine/Starting.antt =====
-- When the engine starts, and what the actor that it starts keeps true.
use allegro.Prelude.{
  ℕ, ◌/◌, ◌<◌, ◌≤◌, ◌≡◌, ◌↔◌, refl, ap, false, List, [], Option, some, Result, ok, err, arith,
  u64_max, inl, inr, ◌⊎◌,
}
use allegro.Prelude.Dict.{get, insert, get-insert_self}
use allegro.Prelude.Lock.{new_lock}
use allegro.Primitives.Digest.{PublicKey, digest_eq, empty_digest, zero_hash}
use allegro.Consensus.Validators.{ValidatorEntry, set_keys, set_is_empty, from_entries}
use allegro.Consensus.Validators.Entries.{Distinct, from_entries-Distinct}
use allegro.Consensus.Error.{ConsensusError}
use allegro.Consensus.Config.{ConsensusConfig, validate}
use allegro.Consensus.Config.Valid.{IsSound, validate_iff}
use allegro.Consensus.Executor.{BuiltPayload, BuildPayloadRequest, PayloadBuilder}
use allegro.Consensus.Application.{Actor, Message, new_actor, run}
use allegro.Consensus.Application.Running.{AllTimed, IsPunctual, run-AllTimed}
use allegro.Consensus.Application.Backing.{IsBacked, run-IsBacked}
use allegro.Consensus.Application.Rooting.{AsksEmpty, run-keeps}
use allegro.Consensus.Engine.{
  Commonware, EngineConfig, SimplexConfig, started, has_zero_size, start_actor, simplex_config,
  start_with, start_simplex_engine,
}

-- The sizes that the engine hands on are not zero.
pub record IsSized (c : ConsensusConfig) : Type 0 where
  pub pages : 0 < c.page_cache_pages
  pub page_capacity : 0 < c.page_cache_capacity
  pub replay : 0 < c.replay_buffer_size
  pub write : 0 < c.write_buffer_size

has_zero_size_iff : (c : ConsensusConfig) → IsSound c → (has_zero_size c ≡ false) ↔ IsSized c
unfolding has_zero_size
has_zero_size_iff c sound = ground (arith, sound.mailbox)

Result-cases :
    (r : Result (Unit {0}) ConsensusError) → (r ≡ ok tt) ⊎ ((e : ConsensusError) × (r ≡ err e))
Result-cases (ok tt) = inl refl
Result-cases (err e) = inr (e, refl)

module _ {K S C : Type 0} (cw : Commonware K S) where
  -- If the validators' keys make an ordered set of participants, the engine starts, with the
  -- configuration and the actor of the code, exactly if the configuration is sound, there is a
  -- validator, and the page cache's two sizes and the two buffers' sizes are not zero.
  pub start_simplex_engine_iff :
      (config : EngineConfig K C) (participants : List PublicKey)
      → cw.ordered (set_keys config.validators) ≡ ok participants
      → (start_simplex_engine cw config
          ≡ started (simplex_config cw config participants) (start_actor cw config))
        ↔ (IsSound config.consensus_config
            × (set_is_empty config.validators ≡ false)
            × IsSized config.consensus_config)
  unfolding start_simplex_engine start_with
  start_simplex_engine_iff config participants unique = (only_if, when)
    where
      only_if :
          start_simplex_engine cw config
            ≡ started (simplex_config cw config participants) (start_actor cw config)
          → IsSound config.consensus_config
            × (set_is_empty config.validators ≡ false)
            × IsSized config.consensus_config
      only_if h = elim (Result-cases (validate config.consensus_config)) [
        | inr (e, bad) ↦ absurd (ground arith)
        | inl good ↦
            let sound = (validate_iff config.consensus_config).0 good in
            (
              sound,
              ground arith,
              (has_zero_size_iff config.consensus_config sound).0 (ground arith),
            )
      ]

      when :
          IsSound config.consensus_config
            × (set_is_empty config.validators ≡ false)
            × IsSized config.consensus_config
          → start_simplex_engine cw config
            ≡ started (simplex_config cw config participants) (start_actor cw config)
      when (sound, some_validator, sized) = ground (
        arith,
        (validate_iff config.consensus_config).1 sound,
        (has_zero_size_iff config.consensus_config sound).1 sized,
      )

  pub start_actor-AllTimed :
      (config : EngineConfig K C)
      → config.genesis_timestamp_millis / 1000 ≡ config.genesis_timestamp
      → config.genesis_timestamp_millis ≤ u64_max
      → AllTimed (start_actor cw config).block_info.contents
  unfolding start_actor new_actor insert get
  start_actor-AllTimed config seconds fits = record { at = λ d info e. ground arith }

  pub start_simplex_engine-actor :
      (config : EngineConfig K C) (simplex : SimplexConfig S C) (a : Actor)
      → start_simplex_engine cw config ≡ started simplex a
      → a ≡ start_actor cw config
  unfolding start_simplex_engine start_with
  start_simplex_engine-actor config simplex a h = ground arith

  start_actor-IsBacked :
      (config : EngineConfig K C)
      → config.proposals ≡ new_lock []
      → IsBacked (start_actor cw config)
  unfolding start_actor new_actor
  start_actor-IsBacked config fresh = record {
    healthy = refl;
    backed = rw (ap (λ l. l.contents) fresh) tt;
  }

  start_actor-genesis :
      (config : EngineConfig K C)
      → get (start_actor cw config).block_info.contents empty_digest
        ≡ some (record {
          number = 0;
          hash = config.genesis_hash;
          view = 0;
          proposer = cw.public_key (cw.from_seed 0);
          timestamp = config.genesis_timestamp;
          timestamp_millis = config.genesis_timestamp_millis;
        })
  unfolding start_actor new_actor
  start_actor-genesis config = get-insert_self [] empty_digest _

  start_actor-healthy :
      (config : EngineConfig K C) → (start_actor cw config).block_info.poisoned ≡ false
  unfolding start_actor new_actor
  start_actor-healthy config = refl

  -- From an engine that started, after any messages at any clock readings: the empty digest still
  -- stands for the genesis block, unless a message asks for its verification, or a payload was
  -- built with the zero hash.
  pub start_simplex_engine-genesis :
      {W Zero : Type 0} (builder : PayloadBuilder W)
      → ((request : BuildPayloadRequest) (w : W) (payload : BuiltPayload)
          → (builder.build_payload request w).0 ≡ ok payload
          → payload.block_hash ≡ zero_hash
          → Zero)
      → (config : EngineConfig K C) (simplex : SimplexConfig S C) (a : Actor)
      → start_simplex_engine cw config ≡ started simplex a
      → (msgs : List (Option ℕ × Message)) (w : W)
      → (get (run builder msgs a w).0.block_info.contents empty_digest
          ≡ some (record {
            number = 0;
            hash = config.genesis_hash;
            view = 0;
            proposer = cw.public_key (cw.from_seed 0);
            timestamp = config.genesis_timestamp;
            timestamp_millis = config.genesis_timestamp_millis;
          }))
        ⊎ (AsksEmpty msgs ⊎ Zero)
  start_simplex_engine-genesis builder hashes config simplex a h msgs w =
      let same = start_simplex_engine-actor config simplex a h in
      run-keeps builder hashes _ msgs a w (rw same (start_actor-healthy config))
        (rw same (start_actor-genesis config))

  -- From an engine that started with no proposals and a genesis block with whole seconds in 64
  -- bits, after any messages at any clock readings: every known block has whole seconds in 64 bits,
  -- and the bytes of every proposed digest are in the unpoisoned store that the relay reads. The
  -- execution layer builds at the seconds that were asked for.
  pub start_simplex_engine-run :
      {W : Type 0} (builder : PayloadBuilder W) (punctual : IsPunctual builder)
      (config : EngineConfig K C) (simplex : SimplexConfig S C) (a : Actor)
      → start_simplex_engine cw config ≡ started simplex a
      → config.proposals ≡ new_lock []
      → config.genesis_timestamp_millis / 1000 ≡ config.genesis_timestamp
      → config.genesis_timestamp_millis ≤ u64_max
      → (msgs : List (Option ℕ × Message)) (w : W)
      → let s = (run builder msgs a w).0 in AllTimed s.block_info.contents × IsBacked s
  start_simplex_engine-run builder punctual config simplex a h fresh seconds fits msgs w =
      let same = start_simplex_engine-actor config simplex a h in
      (
        run-AllTimed builder punctual msgs a w (rw same (start_actor-AllTimed config seconds fits)),
        run-IsBacked builder msgs a w (rw same (start_actor-IsBacked config fresh)),
      )

  pub start_simplex_engine-from_entries :
      (config : EngineConfig K C) (entries : List ValidatorEntry)
      → config.validators ≡ from_entries entries
      → ((ks : List PublicKey) → Distinct ks → (ps : List PublicKey) × (cw.ordered ks ≡ ok ps))
      → IsSound config.consensus_config
      → set_is_empty config.validators ≡ false
      → IsSized config.consensus_config
      → (ps : List PublicKey) × (start_simplex_engine cw config
          ≡ started (simplex_config cw config ps) (start_actor cw config))
  start_simplex_engine-from_entries config entries derived accepts sound some_validator sized =
      let (ps, unique) =
        accepts (set_keys config.validators)
          (rw (ap set_keys derived) (from_entries-Distinct entries)) in
      (ps, (start_simplex_engine_iff config ps unique).1 (sound, some_validator, sized))
