-- ===== src/Router/Feedback/Bounds.antt =====
-- The rates and scores of a provider stay between 0 and 1.
use intelli_route_team.Common.{
  ℕ, ◌+◌, ◌≡◌, ◌∙◌, subst, refl, inl, inr, true, List, [], ◌∷◌, arith, Text, text_eq, text_beq_iff,
  ◌==◌, count_by, Bool-cases, if◌then◌else◌,
}
use intelli_route_team.Common.Dict.{lookup-insert}
use intelli_route_team.Common.Float.{Float, IsFloat, nought, of_ℕ, flt, fmax, fmin}
use intelli_route_team.Common.Unit.{IsUnitFloat, InUnit, ema-InUnit}
use intelli_route_team.Router.Feedback.{
  CompletionOutcome, ProviderMetrics, FeedbackCollector, one, clamp, quality_of, detect_anomaly,
  anomaly_of, success_value, update_metrics, metrics_of, no_metrics, new_collector, record_outcome,
  record_all,
}

module _ {F : Type 0} ⦃fl : Float F⦄ where
  -- The bounded metrics.
  pub record IsBounded (m : ProviderMetrics F) : Type 0 where
    pub success_rate : InUnit m.success_rate_ema
    pub anomaly : InUnit m.anomaly_score
    pub quality : InUnit m.quality_score

  -- The outcomes for a provider.
  abbrev pub outcomes_for : Text → List (CompletionOutcome F) → ℕ
  outcomes_for k = count_by (λ o. o.provider == k)

  -- What the collector knows of the provider `k` after `n` outcomes for it.
  pub record Knows (k : Text) (n : ℕ) (c : FeedbackCollector F) : Type 0 where
    pub bounded : IsBounded (metrics_of k c)
    pub samples : (metrics_of k c).sample_count ≡ n

module _ {F : Type 0} ⦃fl : Float F⦄ (laws : IsFloat F) (unit : IsUnitFloat F) where
  open fl use {ratio, sub, div, fle}
  open laws use {fle_refl, fle_trans, fle_total, sub_nonneg, sub_shrinks}

  nought-InUnit : InUnit (ratio 0 1)
  nought-InUnit = record { nonneg = fle_refl (ratio 0 1); le_one = unit.ratio_nonneg 1 1 }

  one-InUnit : InUnit (ratio 1 1)
  one-InUnit = record { nonneg = unit.ratio_nonneg 1 1; le_one = fle_refl (ratio 1 1) }

  clamp-InUnit : (x : F) → InUnit (clamp x)
  clamp-InUnit x = ground (
    arith,
    fle_total one x,
    fle_total nought (fmin one x),
    fle_refl nought,
    fle_refl one,
    unit.ratio_nonneg 1 1,
  )

  fmax-InUnit : (x y : F) → InUnit x → InUnit y → InUnit (fmax x y)
  fmax-InUnit x y h k = ground arith

  -- `(low - r) / low` below the band
  below-InUnit :
      (low r : F)
      → fle nought low ≡ true
      → fle nought r ≡ true
      → flt r low ≡ true
      → InUnit (div (sub low r) low)
  below-InUnit low r h k l =
      let gap = sub_nonneg low r (fle_total low r (ground (arith, l))) in
      let small = sub_shrinks low r k in
      record {
        nonneg = unit.div_nonneg (sub low r) low gap h;
        le_one =
            unit.div_unit (sub low r) low gap small (ground (arith, l, fle_trans low nought r, k));
      }

  above-InUnit :
      (r ten : F)
      → fle ten r ≡ true
      → fle nought ten ≡ true
      → InUnit (fmin one (div (sub r ten) ten))
  above-InUnit r ten h k = ground (
    arith,
    unit.div_nonneg (sub r ten) ten (sub_nonneg r ten h) k,
    unit.ratio_nonneg 1 1,
    fle_total one (div (sub r ten) ten),
    fle_refl one,
  )

  detect_anomaly-InUnit : (latency_ms : F) → InUnit (detect_anomaly latency_ms)
  unfolding detect_anomaly
  detect_anomaly-InUnit latency_ms =
      let r = div latency_ms (of_ℕ 100) in
      let low = ratio 1 10 in
      ground (
        arith,
        nought-InUnit,
        fle_total latency_ms nought,
        unit.div_nonneg latency_ms (of_ℕ 100),
        unit.ratio_nonneg 100 1,
        unit.ratio_nonneg 1 10,
        unit.ratio_nonneg 10 1,
        below-InUnit low r,
        above-InUnit r (of_ℕ 10),
        fle_total r (of_ℕ 10),
      )

  no_metrics-IsBounded : IsBounded {F = F} no_metrics
  no_metrics-IsBounded = record {
    success_rate = one-InUnit;
    anomaly = nought-InUnit;
    quality = one-InUnit;
  }

  anomaly_of-InUnit : (o : CompletionOutcome F) → InUnit (anomaly_of o)
  anomaly_of-InUnit o =
      fmax-InUnit (detect_anomaly o.latency_ms) (clamp o.hallucination_signal)
        (detect_anomaly-InUnit o.latency_ms) (clamp-InUnit o.hallucination_signal)

  success_value-InUnit : (o : CompletionOutcome F) → InUnit (success_value o)
  success_value-InUnit o = ground (arith, one-InUnit, nought-InUnit)

  quality_of-InUnit : (s a : F) → InUnit (quality_of s a)
  unfolding quality_of
  quality_of-InUnit s a = clamp-InUnit _

  success_after-InUnit :
      (alpha : F) (o : CompletionOutcome F) (m : ProviderMetrics F)
      → InUnit alpha
      → IsBounded m
      → InUnit (update_metrics alpha o m).success_rate_ema
  unfolding update_metrics
  success_after-InUnit alpha o m a h = ground (
    arith,
    success_value-InUnit o,
    ema-InUnit laws unit alpha (success_value o) m.success_rate_ema a (success_value-InUnit o)
        h.success_rate,
  )

  update_metrics-IsBounded :
      (alpha : F) (o : CompletionOutcome F) (m : ProviderMetrics F)
      → InUnit alpha
      → IsBounded m
      → IsBounded (update_metrics alpha o m)
  unfolding update_metrics
  update_metrics-IsBounded alpha o m a h = record {
    success_rate = success_after-InUnit alpha o m a h;
    anomaly =
        ema-InUnit laws unit alpha (anomaly_of o) m.anomaly_score a (anomaly_of-InUnit o) h.anomaly;
    quality = quality_of-InUnit _ _;
  }

  metrics_of-record_outcome :
      (k : Text) (o : CompletionOutcome F) (c : FeedbackCollector F)
      → metrics_of k (record_outcome o c)
        ≡ (if o.provider == k then update_metrics c.alpha o (metrics_of k c) else metrics_of k c)
  unfolding record_outcome
  metrics_of-record_outcome k o c = ground (
    arith,
    lookup-insert o.provider k (update_metrics c.alpha o (metrics_of o.provider c)) c.metrics,
    text_beq_iff o.provider k,
  )

  samples-update_metrics :
      (alpha : F) (o : CompletionOutcome F) (m : ProviderMetrics F)
      → (update_metrics alpha o m).sample_count ≡ m.sample_count + 1
  unfolding update_metrics
  samples-update_metrics alpha o m = refl

  record_outcome-Knows :
      (k : Text) (n : ℕ) (o : CompletionOutcome F) (c : FeedbackCollector F)
      → InUnit c.alpha
      → Knows k n c
      → Knows k (if o.provider == k then n + 1 else n) (record_outcome o c)
  record_outcome-Knows k n o c a h = elim (Bool-cases (o.provider == k)) [
    | inl mine ↦
        let e : metrics_of k (record_outcome o c) ≡ update_metrics c.alpha o (metrics_of k c) =
          metrics_of-record_outcome k o c ∙ rw mine refl in
        rw mine (record {
          bounded = rw e (update_metrics-IsBounded c.alpha o (metrics_of k c) a h.bounded);
          samples =
              rw e (ground (arith, samples-update_metrics c.alpha o (metrics_of k c), h.samples));
        })
    | inr other ↦
        let e : metrics_of k (record_outcome o c) ≡ metrics_of k c =
          metrics_of-record_outcome k o c ∙ rw other refl in
        rw other (record { bounded = rw e h.bounded; samples = rw e h.samples })
  ]

  record_all-Knows :
      (k : Text) (os : List (CompletionOutcome F)) (n : ℕ) (c : FeedbackCollector F)
      → InUnit c.alpha
      → Knows k n c
      → Knows k (n + outcomes_for k os) (record_all os c)
  unfolding record_all record_outcome
  record_all-Knows k [] n c a h = subst (λ j. Knows k j c) (ground arith) h
  record_all-Knows k (o ∷ os) n c a h =
      let n' = if o.provider == k then n + 1 else n in
      let e : n' + outcomes_for k os ≡ n + outcomes_for k (o ∷ os) = ground arith in
      subst (λ j. Knows k j (record_all os (record_outcome o c))) e
        (record_all-Knows k os n' (record_outcome o c) a (record_outcome-Knows k n o c a h))

  -- With a smoothing factor between 0 and 1, after any outcomes from a new collector on, the success
  -- rate, the anomaly score and the quality score of every provider are between 0 and 1, and its
  -- sample count is the number of its outcomes.
  pub record_all-IsBounded :
      (k : Text) (os : List (CompletionOutcome F)) (alpha : F)
      → InUnit alpha
      → Knows k (outcomes_for k os) (record_all os (new_collector alpha))
  record_all-IsBounded k os alpha a =
      let e : 0 + outcomes_for k os ≡ outcomes_for k os = ground arith in
      subst (λ j. Knows k j (record_all os (new_collector alpha))) e
        (record_all-Knows k os 0 (new_collector alpha) a
          (record { bounded = no_metrics-IsBounded; samples = refl }))
