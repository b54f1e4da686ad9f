-- ===== src/Examples/FinalityTests.antt =====
-- A reporter and a finalizer side by side, over a channel for one digest.
use allegro.Prelude.{arith, ℕ, ◌≡◌, refl, true, List, [], ◌∷◌, ◌++◌, some, length}
use allegro.Prelude.Lock.{Lock}
use allegro.Primitives.Digest.{Digest, empty_digest}
use allegro.Consensus.Metrics.{new_metrics}
use allegro.Consensus.Application.{BlockInfos}
use allegro.Consensus.Reporter.{
  Activity, finalization, notarize, MetricsReporter, report, forward, report_all, trace,
}
use allegro.Consensus.Reporter.Forwarding.{finalized}
use allegro.Node.Builder.{Tracker}
use allegro.Node.Finalizer.{finalize_all, finalize_rounds}
use allegro.Network.Finality.{reports_finalize}
use allegro.Network.Pipeline.{Pipeline, begin, reports, round, Ordered, Pipeline-Ordered}
use allegro.Examples.Fixtures.{Queue, queue_channel, engine}
use allegro.Examples.Scenario.{fresh, digest, tracker}

abbrev empty_queue : ℕ → Queue Digest
empty_queue limit = record { items = []; live = true; limit = limit }

abbrev reporter : ℕ → MetricsReporter (Queue Digest)
reporter limit = record { metrics = some new_metrics; finalized_tx = some (empty_queue limit) }

abbrev infos : Lock BlockInfos
infos = fresh.block_info

-- The channel has room for one digest: the second finalization is dropped.
abbrev activities : List Activity
activities = finalization 1 empty_digest ∷ notarize 2 ∷ finalization 2 digest ∷ []

abbrev reported : MetricsReporter (Queue Digest)
reported = report_all (queue_channel Digest) activities (reporter 1)

abbrev full_queue : Queue Digest
full_queue = record { items = empty_digest ∷ []; live = true; limit = 1 }

abbrev one : (Tracker × ℕ) × Queue Digest
one = finalize_rounds engine (queue_channel Digest) 1 full_queue infos (digest.inner, 9) 0

pipeline :
    Pipeline engine
      (queue_channel Digest)
      (digest.inner, 9)
      activities
      (record { digest = empty_digest; infos = infos; world = 0 } ∷ [])
      (record reported { finalized_tx = some one.1 })
      one.0.0
unfolding report_all report forward trace
pipeline =
    round full_queue empty_digest [] infos 0
      (reports (finalization 2 digest) (
        reports (notarize 2) (
          reports (finalization 1 empty_digest)
            (begin {r = reporter 1} {tx = empty_queue 1} refl refl))))
      refl refl

Pipeline-Ordered_example :
    Ordered engine
      (queue_channel Digest)
      (digest.inner, 9)
      activities
      (record { digest = empty_digest; infos = infos; world = 0 } ∷ [])
      (record reported { finalized_tx = some one.1 })
      one.0.0
Pipeline-Ordered_example = Pipeline-Ordered engine (queue_channel Digest) pipeline

reports_finalize_example :
    (rx : Queue Digest) × ((report_all (queue_channel Digest) activities (reporter 2)).finalized_tx
      ≡ some rx)
    × ((finalize_rounds engine (queue_channel Digest) (length rx.items) rx infos tracker 0).0
        ≡ finalize_all engine ([] ++ finalized activities) infos tracker 0)
reports_finalize_example =
    reports_finalize engine (queue_channel Digest) activities (reporter 2) (empty_queue 2) refl refl
      (omega arith) infos tracker 0
