-- ===== src/Network/Waiting/Work.antt =====
-- What an actor that waits has in hand, whatever happened since it began.
use allegro.Prelude.{
  ℕ, zero, suc, ◌/◌, ◌≤◌, ◌≡◌, refl, u64_max, Option, none, some, Result, ok, err, map_err, inl,
  inr, Bool-cases, Option-cases,
}
use allegro.Prelude.Dict.{get}
use Prim.Native.String.{String}
use Prim.Native.String
use allegro.Primitives.Digest.{Bytes, digest_eq, public_key_eq}
use allegro.Consensus.Validators.{set_lookup}
use allegro.Consensus.Executor.{
  BuiltPayload, BuildPayloadRequest, ForkchoiceState, PayloadAttributes, build_payload_attributes,
  build_payload_attributes_from_request,
}
use allegro.Consensus.Application.{
  Actor, BlockInfo, Message, propose, verify, broadcast, Propose, Verify, propose_request,
  find_block,
}
use allegro.Consensus.Application.Changes.{propose_request_in_range}
use allegro.Node.Reth.{Engine, EthFormat, Jobs, ForkchoiceUpdated}
use allegro.Node.Builder.{Tracker, round_result, resolve, import_block}
use allegro.Node.Builder.Agreement.{Builds, import_block-payload, resolve-block}
use allegro.Node.Builder.Stepwise.{
  Job, asking, resolving, importing, finished, asked, resolved, start_build, build_step,
}
use allegro.Network.Waiting.{
  Busy, idle, proposing, verifying, begin, begin_verify, begin_found, begin_decoded,
}

-- A request for seconds that its milliseconds, of 64 bits, are in.
pub record IsWhole (request : BuildPayloadRequest) : Type 0 where
  pub whole : request.timestamp_millis / 1000 ≡ request.timestamp
  pub in_range : request.timestamp_millis ≤ u64_max

whole_request :
    (clock : Option ℕ) (p : Propose) (parent : Option BlockInfo)
    → let r = propose_request clock p parent in r.timestamp_millis / 1000 ≡ r.timestamp
unfolding propose_request
whole_request clock p parent = refl

module _ {W B X : Type 0} (eth : EthFormat B X) (engine : Engine W B X)
    (jobs : Jobs eth engine) where
  -- A job is for the seconds that were asked for.
  abbrev pub JobIsSound : BuildPayloadRequest → Job B → W → Type 0
  JobIsSound request (asking fcs attrs n e) w = attrs.timestamp ≡ request.timestamp
  JobIsSound request (resolving id) w = jobs.Started w id request.timestamp
  JobIsSound request (importing block) w = eth.header_timestamp block ≡ request.timestamp
  JobIsSound request (finished (ok payload)) w = Builds eth request payload
  JobIsSound request (finished (err e)) w = Unit {0}

  -- The state of the execution layer moves on, and the jobs stay.
  JobIsSound-kept :
      (request : BuildPayloadRequest) (job : Job B) (w w' : W)
      → ((id seconds : ℕ) → jobs.Started w id seconds → jobs.Started w' id seconds)
      → JobIsSound request job w
      → JobIsSound request job w'
  JobIsSound-kept request (asking fcs attrs n e) w w' k h = h
  JobIsSound-kept request (resolving id) w w' k h = k id request.timestamp h
  JobIsSound-kept request (importing block) w w' k h = h
  JobIsSound-kept request (finished (ok payload)) w w' k h = h
  JobIsSound-kept request (finished (err e)) w w' k h = h

  retried :
      (request : BuildPayloadRequest) (fcs : ForkchoiceState) (attrs : PayloadAttributes) (n : ℕ)
      (w : W)
      → attrs.timestamp ≡ request.timestamp
      → JobIsSound request
          (asked fcs attrs n (err "engine returned no payload id"))
          (engine.fork_choice_updated fcs (some attrs) w).1
  retried request fcs attrs zero w h = tt
  retried request fcs attrs (suc n) w h = h

  asked-IsSound :
      (request : BuildPayloadRequest) (fcs : ForkchoiceState) (attrs : PayloadAttributes) (n : ℕ)
      (w : W) (answer : Result ForkchoiceUpdated String)
      → (engine.fork_choice_updated fcs (some attrs) w).0 ≡ answer
      → attrs.timestamp ≡ request.timestamp
      → JobIsSound request
          (asked fcs attrs n (round_result answer))
          (engine.fork_choice_updated fcs (some attrs) w).1
  unfolding round_result
  asked-IsSound request fcs attrs zero w (err e) answered h = tt
  asked-IsSound request fcs attrs (suc n) w (err e) answered h = h
  asked-IsSound request fcs attrs n w (ok fcu) answered h = elim (Option-cases fcu.payload_id) [
    | inl none_given ↦ rw none_given (retried request fcs attrs n w h)
    | inr (id, given) ↦ rw given (rw (← h) (jobs.starts fcs attrs w fcu id answered given))
  ]

  resolved-IsSound :
      (request : BuildPayloadRequest) (id : ℕ) (w w' : W) (r : Result B String)
      → (resolve engine id w).0 ≡ r
      → jobs.Started w id request.timestamp
      → JobIsSound request (resolved r) w'
  resolved-IsSound request id w w' (err e) e' h = tt
  resolved-IsSound request id w w' (ok block) e h =
      jobs.resolves w id request.timestamp block h (resolve-block eth engine id w e)

  imported-IsSound :
      (request : BuildPayloadRequest) (block : B) (w w' : W) (r : Result BuiltPayload String)
      → (import_block eth engine block w).0 ≡ r
      → eth.header_timestamp block ≡ request.timestamp
      → JobIsSound request (finished r) w'
  imported-IsSound request block w w' (err e) e' h = tt
  imported-IsSound request block w w' (ok payload) e h = record {
    block = block;
    payload_eq = import_block-payload eth engine block w e;
    on_time = h;
  }

  pub build_step-IsSound :
      (request : BuildPayloadRequest) (job : Job B) (w : W)
      → JobIsSound request job w
      → let (job', w') = build_step eth engine job w in JobIsSound request job' w'
  unfolding build_step
  build_step-IsSound request (asking fcs attrs zero e) w h = tt
  build_step-IsSound request (asking fcs attrs (suc n) e) w h =
      asked-IsSound request fcs attrs n w _ refl h
  build_step-IsSound request (resolving id) w h = resolved-IsSound request id w _ _ refl h
  build_step-IsSound request (importing block) w h = imported-IsSound request block w _ _ refl h
  build_step-IsSound request (finished r) w h = h

  -- What is in hand is a sound job for a whole request of which `R` holds, or a block of which `P`
  -- holds.
  module _ (R : Propose → BuildPayloadRequest → Type 0) (P : Verify → B → Type 0) where
    abbrev pub BusyIsSound : Busy B → W → Type 0
    BusyIsSound idle w = Unit {0}
    BusyIsSound (proposing p request job) w =
        IsWhole request × R p request × JobIsSound request job w
    BusyIsSound (verifying q block) w = P q block

    pub BusyIsSound-kept :
        (busy : Busy B) (w w' : W)
        → ((id seconds : ℕ) → jobs.Started w id seconds → jobs.Started w' id seconds)
        → BusyIsSound busy w
        → BusyIsSound busy w'
    BusyIsSound-kept idle w w' k h = tt
    BusyIsSound-kept (proposing p request job) w w' k h =
        (h.0, h.1, JobIsSound-kept request job w w' k h.2)
    BusyIsSound-kept (verifying q block) w w' k h = h

    begin_found-IsSound :
        (q : Verify) (found : Option Bytes) (s : Actor) (w : W)
        → ((bytes : Bytes) (block : B)
            → found ≡ some bytes
            → eth.decode bytes ≡ ok block
            → P q block)
        → BusyIsSound (begin_found eth q found s).0 w
    begin_found-IsSound q none s w h = tt
    begin_found-IsSound q (some bytes) s w h = go (eth.decode bytes) refl
      where
        go :
            (r : Result B String)
            → eth.decode bytes ≡ r
            → BusyIsSound (begin_decoded eth q (map_err (String.◌++◌ "rlp decode: ") r) s).0 w
        go (ok block) e = h bytes block refl e
        go (err x) e = tt

    pub begin_propose-IsSound :
        (clock : Option ℕ) (p : Propose) (s : Actor) (tracker : Tracker) (w : W)
        → R p (propose_request clock p (get s.block_info.contents p.parent_digest))
        → BusyIsSound (begin eth clock (propose p) s tracker).0 w
    unfolding begin start_build build_payload_attributes_from_request build_payload_attributes
    begin_propose-IsSound clock p s tracker w r = elim (Bool-cases s.block_info.poisoned) [
      | inl poisoned ↦ simp poisoned tt
      | inr healthy ↦ simp healthy (
        record {
          whole = whole_request clock p (get s.block_info.contents p.parent_digest);
          in_range = propose_request_in_range clock p (get s.block_info.contents p.parent_digest);
        },
        r,
        refl,
      )
    ]

    pub begin-IsSound :
        (clock : Option ℕ) (msg : Message) (s : Actor) (tracker : Tracker) (w : W)
        → ((q : Verify) (bytes : Bytes) (block : B)
            → find_block q.payload s ≡ some bytes
            → eth.decode bytes ≡ ok block
            → P q block)
        → ((p : Propose)
            → R p (propose_request clock p (get s.block_info.contents p.parent_digest)))
        → BusyIsSound (begin eth clock msg s tracker).0 w
    unfolding begin
    begin-IsSound clock (broadcast d) s tracker w h r = tt
    begin-IsSound clock (propose p) s tracker w h r =
        begin_propose-IsSound clock p s tracker w (r p)
    begin-IsSound clock (verify q) s tracker w h r =
        elim (Option-cases (set_lookup s.validators q.proposer)) [
          | inl unknown ↦ rw (unknown, begin, begin_verify) tt
          | inr (address, known) ↦
              rw (known, begin, begin_verify)
                (elim (Bool-cases s.pending_blocks.poisoned) [
                  | inl poisoned ↦ simp poisoned tt
                  | inr healthy ↦
                      simp healthy (begin_found-IsSound q (find_block q.payload s) s w (h q))
                ])
        ]
