-- ===== src/Router/Feedback.antt =====
-- `FeedbackCollector` of intelliroute/router/feedback.py. The lock makes each method one step. The
-- score of `compute_hallucination_signal`, a search by regular expressions, is a field of the
-- outcome, as in the source.
pub mod Bounds
mod Tests
use intelli_route_team.Common.{
  ℕ, ◌+◌, ◌*◌, Bool, true, false, not, ◌&&◌, Option, none, some, List, [], ◌∷◌, Text, text_eq, ◌==◌,
  leb, ltb, nat_beq, max, if◌then◌else◌,
}
use intelli_route_team.Common.Dict.{Dict, lookup, insert}
use intelli_route_team.Common.Float.{Float, nought, of_ℕ, flt, feq, fmax, fmin}
use intelli_route_team.Common.Unit.{ema}

pub record CompletionOutcome (F : Type 0) : Type 0 where
  pub provider : Text
  pub latency_ms : F
  pub success : Bool
  pub prompt_tokens : ℕ
  pub completion_tokens : ℕ
  pub prompt_char_count : ℕ
  pub response_char_count : ℕ
  pub hallucination_signal : F

pub record ProviderMetrics (F : Type 0) : Type 0 where
  pub latency_ema : F
  pub success_rate_ema : F
  pub token_efficiency_ema : F
  pub anomaly_score : F
  pub quality_score : F
  pub sample_count : ℕ

pub record FeedbackCollector (F : Type 0) : Type 0 where
  pub alpha : F
  pub metrics : Dict Text (ProviderMetrics F)

module _ {F : Type 0} ⦃fl : Float F⦄ where
  open fl use {ratio, add, sub, mul, div, fle}

  abbrev pub one : F
  one = ratio 1 1

  -- `FeedbackCollector(alpha=…)`
  abbrev pub new_collector : F → FeedbackCollector F
  new_collector alpha = record { alpha = alpha; metrics = [] }

  -- `ProviderMetrics()`
  abbrev pub no_metrics : ProviderMetrics F
  no_metrics = record {
    latency_ema = nought;
    success_rate_ema = one;
    token_efficiency_ema = one;
    anomaly_score = nought;
    quality_score = one;
    sample_count = 0;
  }

  -- `max(0.0, min(1.0, x))`
  abbrev pub clamp : F → F
  clamp x = fmax nought (fmin one x)

  -- `_compute_quality_score`
  unfoldable pub quality_of : F → F → F
  quality_of success_rate_ema anomaly_score =
      let success = clamp success_rate_ema in
      let anomaly = clamp anomaly_score in
      clamp (add (mul (ratio 75 100) success) (mul (ratio 25 100) (sub one anomaly)))

  -- `_detect_anomaly`
  unfoldable pub detect_anomaly : F → F
  detect_anomaly latency_ms =
      let r = div latency_ms (of_ℕ 100) in
      let low = ratio 1 10 in
      if fle latency_ms nought
      then nought
      else if fle low r && fle r (of_ℕ 10)
      then nought
      else if flt r low
      then div (sub low r) low
      else fmin one (div (sub r (of_ℕ 10)) (of_ℕ 10))

  -- The moving averages of `record`: the first sample of a new provider replaces the initial 1.
  abbrev latency_after : F → CompletionOutcome F → F → F
  latency_after alpha o old =
      if not o.success
      then old
      else if feq old nought
      then o.latency_ms
      else ema alpha o.latency_ms old

  abbrev pub success_value : CompletionOutcome F → F
  success_value o = if o.success then one else nought

  abbrev average_after : F → ℕ → F → F → F
  average_after alpha samples x old =
      if feq old one && nat_beq samples 1 then x else ema alpha x old

  abbrev current_efficiency : CompletionOutcome F → F
  current_efficiency o =
      div
        (add (div (of_ℕ o.prompt_tokens) (of_ℕ (max 1 o.prompt_char_count)))
          (div (of_ℕ o.completion_tokens) (of_ℕ (max 1 o.response_char_count))))
        (of_ℕ 2)

  abbrev has_tokens : CompletionOutcome F → Bool
  has_tokens o =
      ltb 0 o.prompt_tokens
      && ltb 0 o.completion_tokens
      && ltb 0 o.prompt_char_count
      && ltb 0 o.response_char_count

  abbrev pub anomaly_of : CompletionOutcome F → F
  anomaly_of o = fmax (detect_anomaly o.latency_ms) (clamp o.hallucination_signal)

  -- The body of `record`, on the provider's metrics.
  unfoldable pub update_metrics : F → CompletionOutcome F → ProviderMetrics F → ProviderMetrics F
  update_metrics alpha o m =
      let n = m.sample_count + 1 in
      let success = average_after alpha n (success_value o) m.success_rate_ema in
      let anomaly = ema alpha (anomaly_of o) m.anomaly_score in
      record {
        latency_ema = latency_after alpha o m.latency_ema;
        success_rate_ema = success;
        token_efficiency_ema =
            if has_tokens o
            then average_after alpha n (current_efficiency o) m.token_efficiency_ema
            else m.token_efficiency_ema;
        anomaly_score = anomaly;
        quality_score = quality_of success anomaly;
        sample_count = n;
      }

  abbrev or_new : Option (ProviderMetrics F) → ProviderMetrics F
  or_new none = no_metrics
  or_new (some m) = m

  -- The metrics that `record` updates.
  abbrev pub metrics_of : Text → FeedbackCollector F → ProviderMetrics F
  metrics_of provider c = or_new (lookup provider c.metrics)

  -- `record`
  unfoldable pub record_outcome : CompletionOutcome F → FeedbackCollector F → FeedbackCollector F
  record_outcome o c = record c {
    metrics = insert o.provider (update_metrics c.alpha o (metrics_of o.provider c)) c.metrics;
  }

  unfoldable pub get_metrics : Text → FeedbackCollector F → Option (ProviderMetrics F)
  get_metrics provider c = lookup provider c.metrics

  unfoldable pub all_metrics : FeedbackCollector F → Dict Text (ProviderMetrics F)
  all_metrics c = c.metrics

  unfoldable pub reset : FeedbackCollector F → FeedbackCollector F
  reset c = record c { metrics = [] }

  -- The outcomes of a run, one after another.
  unfoldable pub record_all : List (CompletionOutcome F) → FeedbackCollector F → FeedbackCollector F
  record_all [] c = c
  record_all (o ∷ os) c = record_all os (record_outcome o c)
