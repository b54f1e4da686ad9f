-- ===== src/Network/System/Timing.antt =====
-- Every block that a node knows has its time, whatever happens between the waits of its actor.
use allegro.Prelude.{◌/◌, ◌≡◌, refl, false, Option, some, ok, arith}
use allegro.Prelude.Dict.{get, insert, get-insert_self}
use allegro.Prelude.Lock.{Lock, write_guard}
use allegro.Primitives.Digest.{digest_eq}
use allegro.Consensus.Executor.{BuiltPayload, BuildPayloadRequest}
use allegro.Consensus.Metrics.{Metrics}
use allegro.Consensus.Application.{
  Actor, Blocks, Propose, Verify, proposed_info, verified_info, built_digest, after_build,
}
use allegro.Consensus.Application.Changes.{SameStores}
use allegro.Consensus.Application.Running.{AllTimed, AllTimed-insert, write_guard-keeps}
use allegro.Node.Builder.{meta_of}
use allegro.Node.Builder.Agreement.{Builds, seconds_kept, meta_in_range}
use allegro.Node.Builder.Stepwise.{Job, finished, build_step}
use allegro.Node.Reth.{Engine, EthFormat, Jobs}
use allegro.Network.Waiting.{proposing, resume}
use allegro.Network.Waiting.Work.{IsWhole}
use allegro.Network.Waiting.Keeps.{IsKept}

-- The stores are not poisoned, and every known block has whole seconds of its milliseconds.
pub record IsPrompt (s : Actor) : Type 0 where
  pub infos : s.block_info.poisoned ≡ false
  pub pending : s.pending_blocks.poisoned ≡ false
  pub timed : AllTimed s.block_info.contents

pub SameStores-IsPrompt : (s s' : Actor) → SameStores s s' → IsPrompt s → IsPrompt s'
SameStores-IsPrompt s s' k h = record {
  infos = rw k.same_info h.infos;
  pending = rw k.same_pending h.pending;
  timed = rw k.same_info h.timed;
}

-- The receiver writes neither known nor own blocks.
pub received-IsPrompt :
    (s : Actor) (blocks : Lock Blocks) (metrics : Option Metrics)
    → IsPrompt s
    → IsPrompt (record s { received_blocks = blocks; metrics = metrics })
received-IsPrompt s blocks metrics h = record {
  infos = h.infos;
  pending = h.pending;
  timed = h.timed;
}

module _ {W B X : Type 0} (eth : EthFormat B X) (engine : Engine W B X)
    (jobs : Jobs eth engine) where
  after_build-IsPrompt :
      (p : Propose) (request : BuildPayloadRequest) (payload : BuiltPayload) (s : Actor)
      → IsWhole request
      → Builds eth request payload
      → IsPrompt s
      → IsPrompt (after_build p request (ok payload) s).1
  unfolding after_build
  after_build-IsPrompt p request payload s whole b h =
      let (seconds, fits) = seconds_kept eth request payload b (ground (arith, whole)) in
      record {
        infos = ground (arith, h.infos);
        pending = ground (arith, h.pending);
        timed =
            write_guard-keeps AllTimed
              (λ infos. insert infos (built_digest payload) (proposed_info p request payload))
              s.block_info
              (λ t.
                AllTimed-insert s.block_info.contents (built_digest payload)
                  (proposed_info p request payload) t
                  (record { whole_seconds = seconds; in_range = fits }))
              h.timed;
      }

  recorded-IsPrompt :
      (q : Verify) (block : B) (s : Actor)
      → (meta_of eth block).timestamp_millis / 1000 ≡ (meta_of eth block).timestamp
      → IsPrompt s
      → IsPrompt (record s {
        block_info =
            write_guard
              (λ infos. insert infos q.payload (verified_info q (meta_of eth block)))
              s.block_info;
      })
  recorded-IsPrompt q block s timed h = record {
    infos = ground (arith, h.infos);
    pending = h.pending;
    timed =
        write_guard-keeps AllTimed
          (λ infos. insert infos q.payload (verified_info q (meta_of eth block))) s.block_info
          (λ t.
            AllTimed-insert s.block_info.contents q.payload (verified_info q (meta_of eth block)) t
              (record {
                whole_seconds = timed;
                in_range = meta_in_range eth block (meta_of eth block) refl;
              }))
          h.timed;
  }

  pub IsPrompt-IsKept :
      (R : Propose → BuildPayloadRequest → Type 0) (P : Verify → B → Type 0)
      → IsKept eth engine jobs R P IsPrompt
  IsPrompt-IsKept R P = record {
    same = SameStores-IsPrompt;
    built = after_build-IsPrompt;
    judged = λ q block s any timed h. recorded-IsPrompt q block s timed h;
  }

  -- What the actor makes of a payload when the last answer of its build comes.
  pub finished_known :
      (p : Propose) (request : BuildPayloadRequest) (job : Job B) (payload : BuiltPayload)
      (s : Actor) (w : W)
      → (build_step eth engine job w).0 ≡ finished (ok payload)
      → s.block_info.poisoned ≡ false
      → get
          (resume eth engine (proposing p request job) s w).1.block_info.contents
          (built_digest payload)
        ≡ some (proposed_info p request payload)
  unfolding resume after_build
  finished_known p request job payload s w e healthy =
      rw (e, resume)
        (ground (
          arith,
          healthy,
          get-insert_self s.block_info.contents (built_digest payload)
              (proposed_info p request payload),
        ))
