-- ===== src/Node/Builder/Retry.antt =====
-- The retries of the build closure: at most as many updates as attempts, up to the first payload id.
use allegro.Prelude.{
  ℕ, zero, suc, ◌<◌, ◌≡◌, refl, Option, none, some, Result, ok, err, arith, ◌⊎◌, inl, inr,
  Option-cases,
}
use Prim.Native.String.{String}
use Prim.Native.String
use allegro.Consensus.Executor.{ForkchoiceState, PayloadAttributes}
use allegro.Node.Reth.{Engine, ForkchoiceUpdated}
use allegro.Node.Builder.{request_payload, round_result}

-- The payload id of an answer, if there is one.
abbrev pub payload_id_of : Result ForkchoiceUpdated String → Option ℕ
payload_id_of (ok fcu) = fcu.payload_id
payload_id_of (err e) = none

-- A round gives an id, or an error.
round_cases :
    (answer : Result ForkchoiceUpdated String)
    → ((id : ℕ) × (payload_id_of answer ≡ some id) × (round_result answer ≡ ok id))
      ⊎ ((e : String) × (payload_id_of answer ≡ none) × (round_result answer ≡ err e))
unfolding round_result
round_cases (err e) = inr (String.◌++◌ "fork_choice_updated error: " e, refl, refl)
round_cases (ok fcu) = elim (Option-cases fcu.payload_id) [
  | inl e ↦ inr ("engine returned no payload id", e, rw e)
  | inr (id, e) ↦ inl (id, e, rw e)
]

module _ {W B X : Type 0} (engine : Engine W B X) (fcs : ForkchoiceState)
    (attrs : PayloadAttributes) where
  -- The execution layer after `k` updates, and the id that the next one gives.
  abbrev pub updated : ℕ → W → W
  updated zero w = w
  updated (suc k) w = updated k (engine.fork_choice_updated fcs (some attrs) w).1

  abbrev pub id_after : ℕ → W → Option ℕ
  id_after k w = payload_id_of (engine.fork_choice_updated fcs (some attrs) (updated k w)).0

  pub updated_last :
      (k : ℕ) (w : W)
      → updated (suc k) w ≡ (engine.fork_choice_updated fcs (some attrs) (updated k w)).1
  updated_last zero w = refl
  updated_last (suc k) w = updated_last k (engine.fork_choice_updated fcs (some attrs) w).1

  -- The first of the updates that gives an id.
  pub record Found (n : ℕ) (w : W) (r : Result ℕ String × W) : Type 0 where
    pub k : ℕ
    pub id : ℕ
    pub within : k < n
    pub given : id_after k w ≡ some id
    pub first : (j : ℕ) → j < k → id_after j w ≡ none
    pub result : r ≡ (ok id, updated (suc k) w)

  pub record Missed (n : ℕ) (w : W) (r : Result ℕ String × W) : Type 0 where
    pub error : String
    pub never : (j : ℕ) → j < n → id_after j w ≡ none
    pub result : r ≡ (err error, updated n w)

  later :
      (n : ℕ) (w : W) (r : Result ℕ String × W)
      → id_after 0 w ≡ none
      → Found n (updated 1 w) r ⊎ Missed n (updated 1 w) r
      → Found (suc n) w r ⊎ Missed (suc n) w r
  later n w r nothing (inl f) = inl (record {
    k = suc f.k;
    id = f.id;
    within = ground arith;
    given = f.given;
    first = λ j h. before j h;
    result = f.result;
  })
    where
      before : (j : ℕ) → j < suc f.k → id_after j w ≡ none
      before zero h = nothing
      before (suc j) h = f.first j (omega arith)
  later n w r nothing (inr m) =
      inr (record { error = m.error; never = λ j h. before j h; result = m.result })
    where
      before : (j : ℕ) → j < suc n → id_after j w ≡ none
      before zero h = nothing
      before (suc j) h = m.never j (omega arith)

  -- Asking for a payload makes at most the given number of forkchoice updates, one after the other:
  -- it returns the id of the first that gives one, with the execution layer as that update left it,
  -- or an error if none of them gives one, with the execution layer as the last left it.
  pub request_payload_tries :
      (n : ℕ) (last_err : String) (w : W)
      → let r = request_payload engine fcs attrs n last_err w in Found n w r ⊎ Missed n w r
  unfolding request_payload
  request_payload_tries zero last_err w =
      inr (record { error = last_err; never = λ j h. absurd (omega arith); result = refl })
  request_payload_tries (suc n) last_err w =
      let answer = (engine.fork_choice_updated fcs (some attrs) w).0 in
      elim (round_cases answer) [
        | inl (id, given, e) ↦ inl (record {
          k = 0;
          id = id;
          within = omega arith;
          given = given;
          first = λ j h. absurd (omega arith);
          result = rw (e, request_payload);
        })
        | inr (error, nothing, e) ↦
            later n w _ nothing
              (rw (e, request_payload) (request_payload_tries n error (updated 1 w)))
      ]
