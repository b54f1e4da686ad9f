-- ===== src/Node/Builder/Stepwise.antt =====
-- The build closure by its waits: each step is one call of the engine or the payload service, and
-- between two steps other tasks run.
use allegro.Prelude.{ℕ, zero, suc, ◌≡◌, refl, Result, ok, err, some, Call, ◌>>=◌}
use Prim.Native.String.{String}
use allegro.Consensus.Executor.{
  BuiltPayload, BuildPayloadRequest, ForkchoiceState, PayloadAttributes,
  build_payload_attributes_from_request,
}
use allegro.Node.Reth.{Engine, EthFormat}
use allegro.Node.Builder.{
  Tracker, attempts, build_state, round_result, request_payload, resolve, import_block, build,
}

-- What a build waits for: the answer to a forkchoice update, with the attempts that are left and
-- the last error; the payload; the verdict of the self-import; or nothing.
pub data Job (B : Type 0) : Type 0 where
  asking : ForkchoiceState → PayloadAttributes → ℕ → String → Job B
  resolving : ℕ → Job B
  importing : B → Job B
  finished : Result BuiltPayload String → Job B

-- The build closure up to its first wait: it reads the tracker here.
unfoldable pub start_build : {B : Type 0} → Tracker → BuildPayloadRequest → Job B
unfolding build_payload_attributes_from_request
start_build tracker req =
    asking (build_state req tracker) (build_payload_attributes_from_request req).1 attempts ""

abbrev pub asked : {B : Type 0} → ForkchoiceState → PayloadAttributes → ℕ → Result ℕ String → Job B
asked fcs attrs n (ok id) = resolving id
asked fcs attrs zero (err e) = finished (err e)
asked fcs attrs (suc n) (err e) = asking fcs attrs (suc n) e

abbrev pub resolved : {B : Type 0} → Result B String → Job B
resolved (ok block) = importing block
resolved (err e) = finished (err e)

module _ {W B X : Type 0} (eth : EthFormat B X) (engine : Engine W B X) where
  -- The build closure from one wait to the next.
  unfoldable pub build_step : Job B → W → Job B × W
  unfolding round_result resolve import_block
  build_step (asking fcs attrs zero last_err) w = (finished (err last_err), w)
  build_step (asking fcs attrs (suc n) last_err) w =
      let (answer, w') = engine.fork_choice_updated fcs (some attrs) w in
      (asked fcs attrs n (round_result answer), w')
  build_step (resolving id) w = let (r, w') = resolve engine id w in (resolved r, w')
  build_step (importing block) w = let (r, w') = import_block eth engine block w in (finished r, w')
  build_step (finished r) w = (finished r, w)

  unfoldable pub build_steps : ℕ → Job B → W → Job B × W
  build_steps zero job w = (job, w)
  build_steps (suc n) job w = let (job', w') = build_step job w in build_steps n job' w'

  pub build_steps-finished :
      (n : ℕ) (r : Result BuiltPayload String) (w : W)
      → build_steps n (finished r) w ≡ (finished r, w)
  unfolding build_step build_steps
  build_steps-finished zero r w = refl
  build_steps-finished (suc n) r w = build_steps-finished n r w

  abbrev pub done : Result BuiltPayload String × W → Job B × W
  done (r, w) = (finished r, w)

  -- The build closure once it has a payload id.
  abbrev fetch : ℕ → Call W BuiltPayload String
  fetch id = resolve engine id >>= import_block eth engine

  resolving-finishes :
      (n id : ℕ) (w : W) → build_steps (suc (suc n)) (resolving id) w ≡ done (fetch id w)
  unfolding build_step build_steps
  resolving-finishes n id w = go (resolve engine id w).0 (resolve engine id w).1
    where
      go :
          (r : Result B String) (w' : W)
          → build_steps (suc n) (resolved r) w'
            ≡ done (elim r as (λ _. Result BuiltPayload String × W) [
              | ok block ↦ import_block eth engine block w'
              | err e ↦ (err e, w')
            ])
      go (ok block) w' =
          build_steps-finished n (import_block eth engine block w').0
            (import_block eth engine block w').1
      go (err e) w' = build_steps-finished (suc n) (err e) w'

  asked-finishes :
      (fcs : ForkchoiceState) (attrs : PayloadAttributes) (n : ℕ)
      → ((e : String) (w : W)
          → build_steps (suc (suc (suc n))) (asking fcs attrs n e) w
            ≡ done ((request_payload engine fcs attrs n e >>= fetch) w))
      → (r : Result ℕ String) (w : W)
      → build_steps (suc (suc (suc n))) (asked fcs attrs n r) w
        ≡ done (
            ((λ w. elim r [ ok id ↦ (ok id, w) | err e ↦ request_payload engine fcs attrs n e w ])
                >>= fetch)
              w)
  unfolding build_step build_steps request_payload
  asked-finishes fcs attrs n h (ok id) w = resolving-finishes (suc n) id w
  asked-finishes fcs attrs zero h (err e) w = refl
  asked-finishes fcs attrs (suc n) h (err e) w = h e w

  asking-finishes :
      (fcs : ForkchoiceState) (attrs : PayloadAttributes) (n : ℕ) (e : String) (w : W)
      → build_steps (suc (suc (suc n))) (asking fcs attrs n e) w
        ≡ done ((request_payload engine fcs attrs n e >>= fetch) w)
  unfolding build_step build_steps request_payload
  asking-finishes fcs attrs zero e w = refl
  asking-finishes fcs attrs (suc n) e w =
      asked-finishes fcs attrs n (asking-finishes fcs attrs n)
        (round_result (engine.fork_choice_updated fcs (some attrs) w).0)
        (engine.fork_choice_updated fcs (some attrs) w).1

  -- Without interference, eight steps are the build closure.
  pub build_steps-build :
      (tracker : Tracker) (req : BuildPayloadRequest) (w : W)
      → build_steps 8 (start_build tracker req) w ≡ done (build eth engine tracker req w)
  unfolding start_build build
  build_steps-build tracker req w = asking-finishes _ _ attempts "" w
