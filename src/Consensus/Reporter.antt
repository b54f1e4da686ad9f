-- ===== src/Consensus/Reporter.antt =====
-- crates/consensus/src/engine.rs: the reporters of consensus activity. The activity is commonware's;
-- of each constructor stands here what the source reads of it.
pub mod Forwarding
use allegro.Prelude.{ℕ, List, [], ◌∷◌, Option, none, some}
use allegro.Primitives.Digest.{Digest}
use allegro.Consensus.Metrics.{Metrics, on_metrics, inc_blocks_finalized}
use allegro.Consensus.Channel.{Channel}

-- `commonware_consensus::simplex::types::Activity`: views of votes, views and payloads of
-- certificates.
pub data Activity : Type 0 where
  notarize : ℕ → Activity
  notarization : ℕ → Digest → Activity
  certification : ℕ → Digest → Activity
  nullify : ℕ → Activity
  nullification : ℕ → Activity
  finalize : ℕ → Activity
  finalization : ℕ → Digest → Activity
  conflicting_notarize : Activity
  conflicting_finalize : Activity
  nullify_finalize : Activity

-- `commonware_actor::Feedback`.
pub data Feedback : Type 0 where
  accepted : Feedback
  closed : Feedback

-- `TracingReporter::report` only logs.
unfoldable pub trace : Activity → Feedback
trace activity = accepted

-- `MetricsReporter`; `C` is the state of the channel to the finalizer.
pub record MetricsReporter (C : Type 0) : Type 0 where
  pub metrics : Option Metrics
  pub finalized_tx : Option C

-- `MetricsReporter::new`.
abbrev pub new_reporter : {C : Type 0} → Option Metrics → Option C → MetricsReporter C
new_reporter metrics finalized_tx = record { metrics = metrics; finalized_tx = finalized_tx }

module _ {C : Type 0} (channel : Channel Digest C) where
  -- A digest that the channel does not take is dropped.
  unfoldable pub forward : Digest → Option C → Option C
  forward digest none = none
  forward digest (some tx) = some (channel.try_send digest tx).1

  -- `MetricsReporter::report`.
  unfoldable pub report : Activity → MetricsReporter C → Feedback × MetricsReporter C
  unfolding forward trace
  report (finalization view payload) r = (
    trace (finalization view payload),
    record {
      metrics = on_metrics inc_blocks_finalized r.metrics;
      finalized_tx = forward payload r.finalized_tx;
    },
  )
  report activity r = (trace activity, r)

  -- The reports of the engine, one after the other.
  unfoldable pub report_all : List Activity → MetricsReporter C → MetricsReporter C
  unfolding report
  report_all [] r = r
  report_all (activity ∷ activities) r = report_all activities (report activity r).1
