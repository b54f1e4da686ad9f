-- ===== src/Node/BeaconConsensus/Timestamps.antt =====
-- Which headers and which payload attributes pass, and that those of a proposal do.
use allegro.Prelude.{ℕ, ◌≤◌, ◌≡◌, ◌↔◌, refl, Option, some, Result, ok, err, arith, and_then}
use allegro.Consensus.Executor.{build_payload_attributes, build_payload_attributes_from_request}
use allegro.Consensus.Application.{BlockInfo, Propose, propose_request}
use allegro.Consensus.Application.Proposing.{IsTimed, propose_request_times}
use allegro.Node.BeaconConsensus.{
  HeaderRules, against_blob_params, against_timestamp, validate_header_against_parent,
  validate_payload_attributes_against_header,
}

-- All that a header needs over its parent; the seconds may be equal.
pub record Follows {H P E : Type 0} (reth : HeaderRules H P E) (header parent : H) : Type 0 where
  pub linked : reth.against_parent_hash_number header parent ≡ ok tt
  pub not_before : reth.timestamp parent ≤ reth.timestamp header
  pub gas : reth.against_parent_gas_limit header parent ≡ ok tt
  pub fee : reth.against_parent_base_fee header parent ≡ ok tt
  pub blobs :
      against_blob_params reth header parent (reth.blob_params_at_timestamp (reth.timestamp header))
      ≡ ok tt

and_then-ok :
    {E : Type 0} (r : Result (Unit {0}) E) (k : Unit {0} → Result (Unit {0}) E)
    → (and_then r k ≡ ok tt) ↔ ((r ≡ ok tt) × (k tt ≡ ok tt))
and_then-ok (ok tt) k = (λ h. (refl, h), λ (a, b). b)
and_then-ok (err e) k = ground arith

module _ {H P E : Type 0} (reth : HeaderRules H P E) where
  against_timestamp_iff :
      (header parent : H)
      → (against_timestamp reth header parent ≡ ok tt)
        ↔ (reth.timestamp parent ≤ reth.timestamp header)
  unfolding against_timestamp
  against_timestamp_iff header parent = ground arith

  -- A header passes against its parent exactly if reth's rules of hash and number, gas limit, base
  -- fee and, where there are blob parameters, blobs pass, and its timestamp is not before the
  -- parent's; it may be equal.
  pub validate_header_against_parent_iff :
      (header parent : H)
      → (validate_header_against_parent reth header parent ≡ ok tt) ↔ Follows reth header parent
  unfolding validate_header_against_parent
  validate_header_against_parent_iff header parent = (
    λ h.
        let (linked, h1) = (and_then-ok _ _).0 h in
        let (on_time, h2) = (and_then-ok _ _).0 h1 in
        let (gas, h3) = (and_then-ok _ _).0 h2 in
        let (fee, blobs) = (and_then-ok _ _).0 h3 in
        record {
          linked = linked;
          not_before = (against_timestamp_iff header parent).0 on_time;
          gas = gas;
          fee = fee;
          blobs = blobs;
        },
    λ f. ground (
      arith,
      f.linked,
      (against_timestamp_iff header parent).1 f.not_before,
      f.gas,
      f.fee,
      f.blobs,
    ),
  )

-- The payload attributes of a proposal on a known parent with whole seconds pass the engine
-- validator's timestamp check against that parent.
pub propose_request_accepted :
    (clock : Option ℕ) (msg : Propose) (parent : BlockInfo)
    → IsTimed parent
    → validate_payload_attributes_against_header
        (build_payload_attributes_from_request (propose_request clock msg (some parent))).1
        parent.timestamp
      ≡ ok tt
unfolding validate_payload_attributes_against_header build_payload_attributes_from_request
    build_payload_attributes
propose_request_accepted clock msg parent h =
    ground (arith, propose_request_times clock msg parent h)
