-- ===== src/Consensus/Metrics.antt =====
-- crates/consensus/src/metrics.rs: the counters, u64 with a wrapping `fetch_add`. All components
-- share one instance; each operation is atomic, so the model applies them one after the other.
use allegro.Prelude.{ℕ, ◌+◌, Option, none, some, wrap_u64}

pub record Metrics : Type 0 where
  pub blocks_proposed : ℕ
  pub blocks_verified : ℕ
  pub blocks_finalized : ℕ
  pub blocks_notarized : ℕ
  pub nullifications : ℕ
  pub view_timeouts : ℕ
  pub conflicting_notarizations : ℕ
  pub conflicting_finalizations : ℕ
  pub blocks_broadcast : ℕ
  pub blocks_received : ℕ
  pub current_view : ℕ
  pub errors_total : ℕ
  pub blocks_relayed : ℕ
  pub failed_validations : ℕ

abbrev pub new_metrics : Metrics
new_metrics = record {
  blocks_proposed = 0;
  blocks_verified = 0;
  blocks_finalized = 0;
  blocks_notarized = 0;
  nullifications = 0;
  view_timeouts = 0;
  conflicting_notarizations = 0;
  conflicting_finalizations = 0;
  blocks_broadcast = 0;
  blocks_received = 0;
  current_view = 0;
  errors_total = 0;
  blocks_relayed = 0;
  failed_validations = 0;
}

abbrev pub inc : ℕ → ℕ
inc n = wrap_u64 (n + 1)

abbrev pub inc_blocks_proposed : Metrics → Metrics
inc_blocks_proposed m = record m { blocks_proposed = inc m.blocks_proposed }

abbrev pub inc_blocks_verified : Metrics → Metrics
inc_blocks_verified m = record m { blocks_verified = inc m.blocks_verified }

abbrev pub inc_blocks_finalized : Metrics → Metrics
inc_blocks_finalized m = record m { blocks_finalized = inc m.blocks_finalized }

abbrev pub inc_blocks_notarized : Metrics → Metrics
inc_blocks_notarized m = record m { blocks_notarized = inc m.blocks_notarized }

abbrev pub inc_nullifications : Metrics → Metrics
inc_nullifications m = record m { nullifications = inc m.nullifications }

abbrev pub inc_view_timeouts : Metrics → Metrics
inc_view_timeouts m = record m { view_timeouts = inc m.view_timeouts }

abbrev pub inc_conflicting_notarizations : Metrics → Metrics
inc_conflicting_notarizations m = record m {
  conflicting_notarizations = inc m.conflicting_notarizations;
}

abbrev pub inc_conflicting_finalizations : Metrics → Metrics
inc_conflicting_finalizations m = record m {
  conflicting_finalizations = inc m.conflicting_finalizations;
}

abbrev pub inc_blocks_broadcast : Metrics → Metrics
inc_blocks_broadcast m = record m { blocks_broadcast = inc m.blocks_broadcast }

abbrev pub inc_blocks_received : Metrics → Metrics
inc_blocks_received m = record m { blocks_received = inc m.blocks_received }

abbrev pub set_current_view : ℕ → Metrics → Metrics
set_current_view view m = record m { current_view = view }

abbrev pub inc_errors : Metrics → Metrics
inc_errors m = record m { errors_total = inc m.errors_total }

abbrev pub inc_blocks_relayed : Metrics → Metrics
inc_blocks_relayed m = record m { blocks_relayed = inc m.blocks_relayed }

abbrev pub inc_failed_validations : Metrics → Metrics
inc_failed_validations m = record m { failed_validations = inc m.failed_validations }

-- `if let Some(ref m) = metrics { … }`.
abbrev pub on_metrics : (Metrics → Metrics) → Option Metrics → Option Metrics
on_metrics f none = none
on_metrics f (some m) = some (f m)

-- What a counter shows; 0 where no metrics are collected.
abbrev pub reading : (Metrics → ℕ) → Option Metrics → ℕ
reading counter none = 0
reading counter (some m) = counter m
