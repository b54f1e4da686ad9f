-- ===== src/Consensus/Reporter/Forwarding.antt =====
-- Which finalized digests reach the finalizer, and how they are counted.
use allegro.Prelude.{
  ℕ, ◌+◌, ◌≤◌, ◌≡◌, refl, sym, ap, ◌∙◌, true, List, [], ◌∷◌, ◌++◌, some, length, length-append,
  arith, inl, inr, Bool-cases, wrap_u64, ltb, ◌⊎◌,
}
use mathlib.Core.List.{append_assoc, append-nil}
use allegro.Primitives.Digest.{Digest}
use allegro.Consensus.Metrics.{Metrics, reading, on_metrics, inc_blocks_finalized}
use allegro.Consensus.Channel.{Channel}
use allegro.Consensus.Reporter.{
  Activity, finalization, notarize, notarization, certification, nullify, nullification, finalize,
  conflicting_notarize, conflicting_finalize, nullify_finalize, MetricsReporter, forward, report,
  report_all,
}

-- The digests that were finalized, in order.
abbrev pub finalized : List Activity → List Digest
finalized [] = []
finalized (finalization view payload ∷ acts) = payload ∷ finalized acts
finalized (_ ∷ acts) = finalized acts

-- Some of the elements of a list, in their order.
pub data Subsequence {A : Type 0} : List A → List A → Type 0 where
  done : Subsequence [] []
  take_it : {x : A} {xs ys : List A} → Subsequence xs ys → Subsequence (x ∷ xs) (x ∷ ys)
  drop_it : {x : A} {xs ys : List A} → Subsequence xs ys → Subsequence xs (x ∷ ys)

module _ {C : Type 0} (channel : Channel Digest C) where
  -- An activity is a finalization, or is only logged.
  pub report-cases :
      (act : Activity) (r : MetricsReporter C)
      → ((view : ℕ) × (d : Digest) × (act ≡ finalization view d))
        ⊎ (((report channel act r).1 ≡ r)
            × ((acts : List Activity) → finalized (act ∷ acts) ≡ finalized acts))
  unfolding report
  report-cases (finalization view d) r = inl (view, d, refl)
  report-cases (notarize view) r = inr (refl, λ acts. refl)
  report-cases (notarization view d) r = inr (refl, λ acts. refl)
  report-cases (certification view d) r = inr (refl, λ acts. refl)
  report-cases (nullify view) r = inr (refl, λ acts. refl)
  report-cases (nullification view) r = inr (refl, λ acts. refl)
  report-cases (finalize view) r = inr (refl, λ acts. refl)
  report-cases conflicting_notarize r = inr (refl, λ acts. refl)
  report-cases conflicting_finalize r = inr (refl, λ acts. refl)
  report-cases nullify_finalize r = inr (refl, λ acts. refl)

  -- A try puts the digest at the end of the queue, or leaves the queue as it is.
  pub try_send-queued :
      (d : Digest) (tx : C)
      → let q = channel.queued (channel.try_send d tx).1 in
        (q ≡ channel.queued tx ++ d ∷ []) ⊎ (q ≡ channel.queued tx)
  try_send-queued d tx = elim (Bool-cases (channel.is_open tx)) [
    | inr shut ↦ inr (channel.send-closed d tx shut).1
    | inl live ↦ elim (Bool-cases (ltb (length (channel.queued tx)) (channel.capacity tx))) [
      | inl room ↦ inl (channel.send-ok d tx live (ground arith)).1
      | inr none_left ↦ inr (channel.send-full d tx live (ground arith)).1
    ]
  ]

  -- What was sent to the finalizer, of the digests that were finalized.
  pub record Sent (acts : List Activity) (tx : C) (r : MetricsReporter C) : Type 0 where
    pub tx' : C
    pub digests : List Digest
    pub linked : r.finalized_tx ≡ some tx'
    pub queue : channel.queued tx' ≡ channel.queued tx ++ digests
    pub ordered : Subsequence digests (finalized acts)

  -- After any reports with a channel to the finalizer, its queue is the old queue followed by some
  -- of the finalized digests of these reports, in their order.
  pub report_all-Sent :
      (acts : List Activity) (r : MetricsReporter C) (tx : C)
      → r.finalized_tx ≡ some tx
      → Sent acts tx (report_all channel acts r)
  unfolding report_all report forward
  report_all-Sent [] r tx e = record {
    tx' = tx;
    digests = [];
    linked = e;
    queue = sym (append-nil _);
    ordered = done;
  }
  report_all-Sent (act ∷ acts) r tx e = elim (report-cases act r) [
    | inr (same, skipped) ↦
        let h = report_all-Sent acts r tx e in
        rw same (record {
          tx' = h.tx';
          digests = h.digests;
          linked = h.linked;
          queue = h.queue;
          ordered = rw (skipped acts) h.ordered;
        })
    | inl (view, d, is) ↦
        let h =
          report_all-Sent acts (report channel (finalization view d) r).1 (channel.try_send d tx).1
            (ap (forward channel d) e) in
        rw is (elim (try_send-queued d tx) [
          | inl sent ↦ record {
            tx' = h.tx';
            digests = d ∷ h.digests;
            linked = h.linked;
            queue =
                h.queue
                ∙ ap (λ q. q ++ h.digests) sent
                ∙ append_assoc (channel.queued tx) (d ∷ []) h.digests;
            ordered = take_it h.ordered;
          }
          | inr dropped ↦ record {
            tx' = h.tx';
            digests = h.digests;
            linked = h.linked;
            queue = h.queue ∙ ap (λ q. q ++ h.digests) dropped;
            ordered = drop_it h.ordered;
          }
        ])
  ]

  -- If the channel to the finalizer is open and has room for all finalized digests of the reports,
  -- its queue is the old queue followed by all of them, in their order.
  pub report_all-queued :
      (acts : List Activity) (r : MetricsReporter C) (tx : C)
      → r.finalized_tx ≡ some tx
      → channel.is_open tx ≡ true
      → length (channel.queued tx) + length (finalized acts) ≤ channel.capacity tx
      → (tx' : C) × ((report_all channel acts r).finalized_tx ≡ some tx')
        × (channel.queued tx' ≡ channel.queued tx ++ finalized acts)
  unfolding report_all report forward
  report_all-queued [] r tx e live room = (tx, e, sym (append-nil _))
  report_all-queued (act ∷ acts) r tx e live room = elim (report-cases act r) [
    | inr (same, skipped) ↦
        rw (report_all, same, skipped acts)
          (report_all-queued acts r tx e live (omega (arith, ap length (skipped acts))))
    | inl (view, d, is) ↦
        let tx1 = (channel.try_send d tx).1 in
        let sent =
          (channel.send-ok d tx live
            (omega (arith, ap (λ a. length (finalized (a ∷ acts))) is))).1 in
        let keeps = channel.send-keeps d tx in
        let (tx', linked, queue) =
          report_all-queued acts (report channel (finalization view d) r).1 tx1
            (ap (forward channel d) e) (keeps.0 ∙ live)
            (omega (
              arith,
              keeps.1,
              ap length sent,
              length-append (channel.queued tx) (d ∷ []),
              ap (λ a. length (finalized (a ∷ acts))) is,
            )) in
        rw is (
          tx',
          linked,
          queue
              ∙ ap (λ q. q ++ finalized acts) sent
              ∙ append_assoc (channel.queued tx) (d ∷ []) (finalized acts),
        )
  ]

  -- If metrics are collected, the counter of finalized blocks grows, modulo 2^64, by the number of
  -- finalizations that are reported, whether or not their digests were sent.
  pub report_all_counts :
      (acts : List Activity) (r : MetricsReporter C) (m : Metrics)
      → r.metrics ≡ some m
      → wrap_u64 (reading (λ m. m.blocks_finalized) (report_all channel acts r).metrics)
        ≡ wrap_u64 (m.blocks_finalized + length (finalized acts))
  unfolding report_all report forward
  report_all_counts [] r m e = ground arith
  report_all_counts (act ∷ acts) r m e = elim (report-cases act r) [
    | inr (same, skipped) ↦ rw (report_all, same, skipped acts) (report_all_counts acts r m e)
    | inl (view, d, is) ↦ rw is (
        omega (
          arith,
          report_all_counts acts (report channel (finalization view d) r).1 (inc_blocks_finalized m)
              (ap (on_metrics inc_blocks_finalized) e),
        ))
  ]
