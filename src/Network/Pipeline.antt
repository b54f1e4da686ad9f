-- ===== src/Network/Pipeline.antt =====
-- The reporter and the finalizer side by side, with the channel between them: what is reported while
-- the finalizer works, and what the tracker that the build closure reads can then name.
use allegro.Prelude.{
  ◌≡◌, refl, sym, ap, ◌∙◌, subst, List, [], ◌∷◌, ◌++◌, some, arith, ◌⊎◌, inl, inr,
}
use mathlib.Core.List.{append_assoc, append-nil, map-append}
use allegro.Prelude.Lock.{Lock}
use allegro.Primitives.Digest.{Digest, digest_eq}
use allegro.Consensus.Application.{BlockInfos}
use allegro.Consensus.Channel.{Channel}
use allegro.Consensus.Reporter.{Activity, finalization, MetricsReporter, forward, report}
use allegro.Consensus.Reporter.Forwarding.{
  finalized, Subsequence, done, take_it, drop_it, report-cases, try_send-queued,
}
use allegro.Node.Reth.{Engine}
use allegro.Node.Builder.{Tracker}
use allegro.Node.Finalizer.{finalize, finalize_rounds}
use allegro.Network.System.{Among}
use allegro.Network.Moving.{Turn, taken, Moved, round-tracks}

Subsequence-taken :
    {A : Type 0} (xs ys : List A) (d : A)
    → Subsequence xs ys
    → Subsequence (xs ++ d ∷ []) (ys ++ d ∷ [])
Subsequence-taken xs ys d done = take_it done
Subsequence-taken xs ys d (take_it h) = take_it (Subsequence-taken _ _ d h)
Subsequence-taken xs ys d (drop_it h) = drop_it (Subsequence-taken _ _ d h)

Subsequence-dropped :
    {A : Type 0} (xs ys : List A) (d : A) → Subsequence xs ys → Subsequence xs (ys ++ d ∷ [])
Subsequence-dropped xs ys d done = drop_it done
Subsequence-dropped xs ys d (take_it h) = take_it (Subsequence-dropped _ _ d h)
Subsequence-dropped xs ys d (drop_it h) = drop_it (Subsequence-dropped _ _ d h)

module _ {W B X C : Type 0} (engine : Engine W B X) (channel : Channel Digest C) where
  -- From a tracker on: what was reported, the rounds of the finalizer, and the reporter and the
  -- tracker now. Between two rounds, the known blocks and the execution layer may change in any
  -- way: other tasks share them.
  pub data Pipeline (t0 : Tracker)
      : List Activity → List (Turn W) → MetricsReporter C → Tracker → Type 0 where
    begin :
        {r : MetricsReporter C} {tx : C}
        → r.finalized_tx ≡ some tx
        → channel.queued tx ≡ []
        → Pipeline t0 [] [] r t0
    reports :
        {acts : List Activity} {us : List (Turn W)} {r : MetricsReporter C} {t : Tracker}
        → (act : Activity) → Pipeline t0 acts us r t
        → Pipeline t0 (acts ++ act ∷ []) us (report channel act r).1 t
    round :
        {acts : List Activity} {us : List (Turn W)} {r : MetricsReporter C} {t : Tracker}
        → (tx : C) (d : Digest) (rest : List Digest) (infos : Lock BlockInfos) (w : W)
        → Pipeline t0 acts us r t
        → r.finalized_tx ≡ some tx
        → channel.queued tx ≡ d ∷ rest
        → Pipeline t0 acts
            (us ++ record { digest = d; infos = infos; world = w } ∷ [])
            (record r { finalized_tx = some (finalize_rounds engine channel 1 tx infos t w).1 })
            (finalize_rounds engine channel 1 tx infos t w).0.0

  finalize_rounds-one :
      (tx : C) (d : Digest) (rest : List Digest) (infos : Lock BlockInfos) (t : Tracker) (w : W)
      → channel.queued tx ≡ d ∷ rest
      → finalize_rounds engine channel 1 tx infos t w
        ≡ (finalize engine d infos t w, (channel.next tx).1)
  unfolding finalize_rounds
  finalize_rounds-one tx d rest infos t w head =
      rw (finalize_rounds, (channel.next-queued tx d rest head).0) refl

  -- What a pipeline is at any time.
  pub record Ordered (t0 : Tracker) (acts : List Activity) (us : List (Turn W))
      (r : MetricsReporter C) (t : Tracker) : Type 0 where
    pub tx : C
    pub linked : r.finalized_tx ≡ some tx
    pub ordered : Subsequence (taken us ++ channel.queued tx) (finalized acts)
    pub tracks : (t ≡ t0) ⊎ ((u : Turn W) × Among u us × Moved engine u t)

  finalized-append :
      (acts : List Activity) (act : Activity) (r : MetricsReporter C)
      → finalized (acts ++ act ∷ []) ≡ finalized acts ++ finalized (act ∷ [])
  finalized-append [] act r = refl
  finalized-append (a ∷ acts) act r = elim (report-cases channel a r) [
    | inl (view, d, is) ↦ rw is (ap (λ l. d ∷ l) (finalized-append acts act r))
    | inr (same, skipped) ↦
        skipped (acts ++ act ∷ [])
        ∙ finalized-append acts act r
        ∙ sym (ap (λ l. l ++ finalized (act ∷ [])) (skipped acts))
  ]

  reports-Ordered :
      (t0 : Tracker) (act : Activity) (acts : List Activity) (us : List (Turn W))
      (r : MetricsReporter C) (t : Tracker)
      → Ordered t0 acts us r t
      → Ordered t0 (acts ++ act ∷ []) us (report channel act r).1 t
  unfolding report forward
  reports-Ordered t0 act acts us r t h = elim (report-cases channel act r) [
    | inr (same, skipped) ↦ record {
      tx = h.tx;
      linked = rw same h.linked;
      ordered =
          subst (Subsequence (taken us ++ channel.queued h.tx))
            (sym (
              finalized-append acts act r
              ∙ ap (λ l. finalized acts ++ l) (skipped [])
              ∙ append-nil _))
            h.ordered;
      tracks = h.tracks;
    }
    | inl (view, d, is) ↦ rw is (record {
      tx = (channel.try_send d h.tx).1;
      linked = ap (forward channel d) h.linked;
      ordered =
          subst (Subsequence (taken us ++ channel.queued (channel.try_send d h.tx).1))
            (sym (finalized-append acts (finalization view d) r))
            (elim (try_send-queued channel d h.tx) [
              | inl sent ↦
                  subst (λ q. Subsequence q (finalized acts ++ d ∷ []))
                    (append_assoc (taken us) (channel.queued h.tx) (d ∷ [])
                      ∙ ap (λ q. taken us ++ q) (sym sent))
                    (Subsequence-taken _ _ d h.ordered)
              | inr dropped ↦
                  subst (λ q. Subsequence (taken us ++ q) (finalized acts ++ d ∷ [])) (sym dropped)
                    (Subsequence-dropped _ _ d h.ordered)
            ]);
      tracks = h.tracks;
    })
  ]

  -- A reporter whose channel to the finalizer starts empty reports any activities, in any
  -- interleaving with the finalizer's rounds, while the known blocks and the execution layer change
  -- in any way between rounds: at any time, what the finalizer took, followed by what is queued,
  -- are some of the finalized digests of these reports, in their order, and the tracker is where it
  -- started, or at the hash and number of the block that stood under the digest of one of these
  -- rounds in the known blocks of that round, for which the engine of that round answered the
  -- forkchoice update to that hash with a valid status.
  pub Pipeline-Ordered :
      {t0 : Tracker} {acts : List Activity} {us : List (Turn W)} {r : MetricsReporter C}
      {t : Tracker}
      → Pipeline t0 acts us r t
      → Ordered t0 acts us r t
  Pipeline-Ordered (begin {tx = tx} linked quiet) = record {
    tx = tx;
    linked = linked;
    ordered = rw quiet done;
    tracks = inl refl;
  }
  Pipeline-Ordered {t0 = t0} (reports {acts = acts} {us = us} {r = r} {t = t} act h) =
      reports-Ordered t0 act acts us r t (Pipeline-Ordered h)
  Pipeline-Ordered {t0 = t0}
        (round {acts = acts} {us = us} {r = r} {t = t} tx d rest infos w h linked head) =
      let o = Pipeline-Ordered h in
      let one = finalize_rounds-one tx d rest infos t w head in
      let same : o.tx ≡ tx = ground (arith, o.linked, linked) in
      record {
        tx = (channel.next tx).1;
        linked = ap (λ s. some s.1) one;
        ordered =
            subst (λ q. Subsequence q (finalized acts))
              (ap (λ c. taken us ++ channel.queued c) same
                ∙ ap (λ q. taken us ++ q) head
                ∙ sym (append_assoc (taken us) (d ∷ []) rest)
                ∙ ap (λ q. (taken us ++ d ∷ []) ++ q) (sym (channel.next-queued tx d rest head).1)
                ∙ ap (λ l. l ++ channel.queued (channel.next tx).1)
                    (sym (
                      map-append (λ u. u.digest) us
                        (record { digest = d; infos = infos; world = w } ∷ []))))
              o.ordered;
        tracks = rw one (round-tracks engine t0 us d infos t w o.tracks);
      }
