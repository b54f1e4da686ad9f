-- ===== src/Network/Waiting/Keeps.antt =====
-- What holds of the stores while handlers begin, wait and go on.
use allegro.Prelude.{
  ℕ, ◌/◌, ◌⊎◌, nat_eqb, ◌≡◌, Option, none, some, Result, ok, err, map_err, arith, inl, inr,
  Bool-cases, Option-cases,
}
use Prim.Native.String.{String}
use Prim.Native.String
use allegro.Primitives.Digest.{Bytes, digest_eq, public_key_eq}
use allegro.Consensus.Validators.{set_lookup}
use allegro.Prelude.Dict.{insert}
use allegro.Prelude.Lock.{write_guard}
use allegro.Consensus.Executor.{BlockMeta, BuiltPayload, BuildPayloadRequest, valid}
use allegro.Consensus.Application.{
  Actor, Message, propose, verify, broadcast, Propose, Verify, find_block, after_build,
  after_validate, verified_info,
}
use allegro.Consensus.Application.Changes.{SameStores}
use allegro.Node.Reth.{Engine, EthFormat, Jobs, PayloadStatus}
use allegro.Node.Reth
use allegro.Node.Builder.{Tracker, meta_of, judge}
use allegro.Node.Builder.Agreement.{Builds}
use allegro.Node.Builder.Stepwise.{Job, asking, resolving, importing, finished}
use allegro.Network.Waiting.{
  Busy, idle, proposing, verifying, begin, begin_verify, begin_found, begin_decoded, settle,
  verdict, resume,
}
use allegro.Network.Waiting.Work.{IsWhole, JobIsSound, BusyIsSound, build_step-IsSound}

after_validate_err :
    (q : Verify) (e : String) (s : Actor) → SameStores s (after_validate q (err e) s).1
unfolding after_validate
after_validate_err q e s = ground arith

-- A verdict of validity leaves the stores, or is recorded.
after_validate-cases :
    (q : Verify) (meta : BlockMeta) (a : Actor)
    → let a' = (after_validate q (ok (valid meta)) a).1 in
      SameStores a a'
      ⊎ ((meta.timestamp_millis / 1000 ≡ meta.timestamp)
          × SameStores
              (record a {
                block_info =
                    write_guard
                      (λ infos. insert infos q.payload (verified_info q meta))
                      a.block_info;
              })
              a')
unfolding after_validate
after_validate-cases q meta a =
    elim (Bool-cases (nat_eqb (meta.timestamp_millis / 1000) meta.timestamp)) [
      | inl timely ↦ rw timely (inr (ground arith, ground arith))
      | inr off ↦ rw off (inl (ground arith))
    ]

begin_found-SameStores :
    {B X : Type 0} (eth : EthFormat B X) (q : Verify) (found : Option Bytes) (s : Actor)
    → SameStores s (begin_found eth q found s).1
begin_found-SameStores eth q none s = ground arith
begin_found-SameStores {B} eth q (some bytes) s = go (eth.decode bytes)
  where
    go :
        (r : Result B String)
        → SameStores s (begin_decoded eth q (map_err (String.◌++◌ "rlp decode: ") r) s).1
    go (ok block) = ground arith
    go (err e) = after_validate_err q (String.◌++◌ "rlp decode: " e) s

-- Up to its first wait, a handler changes no store.
pub begin-SameStores :
    {B X : Type 0} (eth : EthFormat B X) (clock : Option ℕ) (msg : Message) (s : Actor)
    (tracker : Tracker)
    → SameStores s (begin eth clock msg s tracker).1
unfolding begin
begin-SameStores eth clock (broadcast d) s tracker = ground arith
begin-SameStores eth clock (propose p) s tracker = elim (Bool-cases s.block_info.poisoned) [
  | inl poisoned ↦ simp poisoned (ground arith)
  | inr healthy ↦ simp healthy (ground arith)
]
begin-SameStores eth clock (verify q) s tracker =
    elim (Option-cases (set_lookup s.validators q.proposer)) [
      | inl unknown ↦ rw (unknown, begin, begin_verify) (ground arith)
      | inr (address, known) ↦
          rw (known, begin, begin_verify)
            (elim (Bool-cases s.pending_blocks.poisoned) [
              | inl poisoned ↦ simp poisoned (ground arith)
              | inr healthy ↦ simp healthy (begin_found-SameStores eth q (find_block q.payload s) s)
            ])
    ]

module _ {W B X : Type 0} (eth : EthFormat B X) (engine : Engine W B X) (jobs : Jobs eth engine)
    (R : Propose → BuildPayloadRequest → Type 0) (P : Verify → B → Type 0)
    (Q : Actor → Type 0) where
  -- `Q` is kept by what the handlers write.
  pub record IsKept : Type 0 where
    pub same : (s s' : Actor) → SameStores s s' → Q s → Q s'
    pub built :
        (p : Propose) (request : BuildPayloadRequest) (payload : BuiltPayload) (s : Actor)
        → IsWhole request
        → Builds eth request payload
        → Q s
        → Q (after_build p request (ok payload) s).1
    pub judged :
        (q : Verify) (block : B) (s : Actor)
        → P q block
        → (meta_of eth block).timestamp_millis / 1000 ≡ (meta_of eth block).timestamp
        → Q s
        → Q (record s {
          block_info =
              write_guard
                (λ infos. insert infos q.payload (verified_info q (meta_of eth block)))
                s.block_info;
        })

  module _ (kept : IsKept) where
    settle-keeps :
        (p : Propose) (request : BuildPayloadRequest) (job : Job B) (s : Actor) (w : W)
        → IsWhole request
        → R p request
        → JobIsSound eth engine jobs request job w
        → Q s
        → let (busy, s', w') = settle eth engine p request job s w in
          Q s' × BusyIsSound eth engine jobs R P busy w'
    unfolding after_build
    settle-keeps p request (asking fcs attrs n e) s w whole r h q = (q, (whole, r, h))
    settle-keeps p request (resolving id) s w whole r h q = (q, (whole, r, h))
    settle-keeps p request (importing block) s w whole r h q = (q, (whole, r, h))
    settle-keeps p request (finished (err e)) s w whole r h q =
        (kept.same s (after_build p request (err e) s).1 (ground arith) q, tt)
    settle-keeps p request (finished (ok payload)) s w whole r h q =
        (kept.built p request payload s whole h q, tt)

    judged-keeps :
        (v : Verify) (block : B) (answer : Result PayloadStatus String) (s : Actor)
        → P v block
        → Q s
        → Q (after_validate v (verdict eth engine block answer) s).1
    unfolding judge after_validate
    judged-keeps v block (err e) s h q = kept.same s _ (ground arith) q
    judged-keeps v block (ok Reth.valid) s h q =
        elim (after_validate-cases v (meta_of eth block) s) [
          | inl same ↦ kept.same s _ same q
          | inr (timed, recorded) ↦ kept.same _ _ recorded (kept.judged v block s h timed q)
        ]
    judged-keeps v block (ok Reth.syncing) s h q = kept.same s _ (ground arith) q
    judged-keeps v block (ok Reth.accepted) s h q = kept.same s _ (ground arith) q
    judged-keeps v block (ok (Reth.invalid e)) s h q = kept.same s _ (ground arith) q

    -- When the answer comes.
    pub resume-keeps :
        (busy : Busy B) (s : Actor) (w : W)
        → BusyIsSound eth engine jobs R P busy w
        → Q s
        → let (busy', s', w') = resume eth engine busy s w in
          Q s' × BusyIsSound eth engine jobs R P busy' w'
    unfolding resume
    resume-keeps idle s w h q = (q, tt)
    resume-keeps (proposing p request job) s w (whole, r, h) q =
        settle-keeps p request _ s _ whole r (build_step-IsSound eth engine jobs request job w h) q
    resume-keeps (verifying v block) s w h q = (judged-keeps v block _ s h q, tt)
