-- ===== src/Router/Policy.antt =====
-- `RoutingPolicy` of intelliroute/router/policy.py: the scores of the providers and their order. The
-- health snapshot is the health monitor's, the feedback is that of Router/Feedback.
pub mod Order
mod Tests
use intelli_route_team.Common.{
  ℕ, Bool, true, false, not, ◌&&◌, Option, none, some, List, [], ◌∷◌, map, Text, text_eq, leb,
  if◌then◌else◌, any_by, filter_by,
}
use intelli_route_team.Common.Dict.{Dict, lookup}
use intelli_route_team.Common.Float.{Float, nought, of_ℕ, flt, fmax, fmin}
use intelli_route_team.Common.Sort.{sort_by}
use intelli_route_team.HealthMonitor.Breaker.{CircuitState, is_open, is_half_open}
use intelli_route_team.HealthMonitor.Monitor.{ProviderHealth}
use intelli_route_team.Router.Provider.{
  Intent, interactive, reasoning, batch, code, intent_eq, intent_value, ProviderInfo, SubScores,
  ScoredProvider,
}
use intelli_route_team.Router.Feedback.{FeedbackCollector, ProviderMetrics, get_metrics}

pub record Weights (F : Type 0) : Type 0 where
  pub latency : F
  pub cost : F
  pub capability : F
  pub success : F

pub record RoutingPolicy (F : Type 0) : Type 0 where
  pub weights : Dict Intent (Weights F)
  pub feedback : Option (FeedbackCollector F)

-- The arguments of `rank` after the health snapshot.
pub record RankOptions (F : Type 0) : Type 0 where
  pub intent : Intent
  pub latency_budget_ms : Option ℕ
  pub confidence_hint : Option F
  pub premium_threshold : F

module _ {F : Type 0} ⦃fl : Float F⦄ where
  open fl use {ratio, add, sub, mul, div, fle, round_to}

  abbrev one : F
  one = ratio 1 1

  abbrev weights_of : ℕ → ℕ → ℕ → ℕ → Weights F
  weights_of l c k s = record {
    latency = ratio l 100;
    cost = ratio c 100;
    capability = ratio k 100;
    success = ratio s 100;
  }

  -- `INTENT_WEIGHTS`
  abbrev pub intent_weights : Dict Intent (Weights F)
  intent_weights =
      (interactive, weights_of 55 15 20 10)
      ∷ (reasoning, weights_of 10 10 50 30)
      ∷ (batch, weights_of 5 65 15 15)
      ∷ (code, weights_of 10 5 65 20)
      ∷ []

  abbrev or_table : Option (Dict Intent (Weights F)) → Dict Intent (Weights F)
  or_table none = intent_weights
  or_table (some []) = intent_weights
  or_table (some (w ∷ ws)) = w ∷ ws

  -- `RoutingPolicy(intent_weights, feedback)`
  abbrev pub new_policy :
      Option (Dict Intent (Weights F)) → Option (FeedbackCollector F) → RoutingPolicy F
  new_policy table feedback = record { weights = or_table table; feedback = feedback }

  -- `_normalize_latency` and `_normalize_cost`
  unfoldable pub normalize : F → F → F
  normalize x worst =
      if fle worst nought then one else fmax nought (sub one (div (fmin x worst) worst))

  abbrev pub is_open_in : Dict Text (ProviderHealth F) → Text → Bool
  is_open_in health name = elim (lookup name health) [
    | some h ↦ is_open h.circuit_state
    | none ↦ false
  ]

  abbrev pub is_half_open_in : Dict Text (ProviderHealth F) → Text → Bool
  is_half_open_in health name = elim (lookup name health) [
    | some h ↦ is_half_open h.circuit_state
    | none ↦ false
  ]

  abbrev or_all : List (ProviderInfo F) → List (ProviderInfo F) → List (ProviderInfo F)
  or_all [] fallback = fallback
  or_all (p ∷ ps) fallback = p ∷ ps

  -- The providers that are ranked: those whose circuit is not open, or all if each one's is.
  unfoldable pub usable_providers :
      Dict Text (ProviderHealth F) → List (ProviderInfo F) → List (ProviderInfo F)
  usable_providers health providers =
      or_all (filter_by (λ p. not (is_open_in health p.name)) providers)
        (filter_by (λ p. is_open_in health p.name) providers)

  -- `max(…, default=1.0)`
  abbrev worst_of : (ProviderInfo F → F) → List (ProviderInfo F) → F
  worst_of f [] = one
  worst_of f (p ∷ []) = f p
  worst_of f (p ∷ q ∷ ps) = fmax (f p) (worst_of f (q ∷ ps))

  abbrev metrics_for : Option (FeedbackCollector F) → Text → Option (ProviderMetrics F)
  metrics_for none name = none
  metrics_for (some c) name = get_metrics name c

  abbrev health_latency : Option (ProviderHealth F) → F → F
  health_latency none static = static
  health_latency (some h) static = if flt nought h.avg_latency_ms then h.avg_latency_ms else static

  unfoldable pub latency_estimate : Option (ProviderMetrics F) → Option (ProviderHealth F) → F → F
  latency_estimate none h static = health_latency h static
  latency_estimate (some m) h static =
      if flt nought m.latency_ema then m.latency_ema else health_latency h static

  abbrev health_success : Option (ProviderHealth F) → F
  health_success none = one
  health_success (some h) = sub one h.error_rate

  unfoldable pub success_estimate : Option (ProviderMetrics F) → Option (ProviderHealth F) → F
  success_estimate none h = health_success h
  success_estimate (some m) h =
      if flt m.success_rate_ema one then m.success_rate_ema else health_success h

  abbrev anomaly_penalty : Option (ProviderMetrics F) → F
  anomaly_penalty none = nought
  anomaly_penalty (some m) = mul (ratio 1 10) m.anomaly_score

  abbrev or_half : Option F → F
  or_half none = ratio 1 2
  or_half (some c) = c

  abbrev low_confidence : RankOptions F → Bool
  low_confidence o = elim o.confidence_hint [ some c ↦ flt c o.premium_threshold | none ↦ false ]

  unfoldable pub capability_estimate : RankOptions F → ProviderInfo F → F
  capability_estimate o p =
      if low_confidence o && leb 3 p.capability_tier
      then nought
      else or_half (lookup (intent_value o.intent) p.capability)

  abbrev pub over_budget : RankOptions F → F → Bool
  over_budget o latency = elim o.latency_budget_ms [ some b ↦ flt (of_ℕ b) latency | none ↦ false ]

  abbrev pub breaks_sla : RankOptions F → ProviderInfo F → F → Bool
  breaks_sla o p latency = elim (lookup (intent_value o.intent) p.sla_p95_latency_ms) [
    | some sla ↦ flt nought sla && flt sla latency
    | none ↦ false
  ]

  unfoldable pub latency_score : RankOptions F → ProviderInfo F → F → F → F
  latency_score o p latency worst =
      if breaks_sla o p latency
      then nought
      else if over_budget o latency
      then nought
      else normalize latency worst

  abbrev or_interactive : Option (Weights F) → Weights F
  or_interactive none = weights_of 55 15 20 10
  or_interactive (some w) = w

  -- The body of the loop of `rank`.
  unfoldable pub score_provider :
      RoutingPolicy F
      → Dict Text (ProviderHealth F)
      → RankOptions F
      → F
      → F
      → ProviderInfo F
      → ScoredProvider F
  score_provider policy health o worst_latency worst_cost p =
      let h = lookup p.name health in
      let m = metrics_for policy.feedback p.name in
      let w = or_interactive (lookup o.intent policy.weights) in
      let l = latency_score o p (latency_estimate m h p.typical_latency_ms) worst_latency in
      let c = normalize p.cost_per_1k_tokens worst_cost in
      let k = capability_estimate o p in
      let s = success_estimate m h in
      record {
        provider = p;
        score =
            sub
              (add (add (add (mul w.latency l) (mul w.cost c)) (mul w.capability k))
                (mul w.success s))
              (anomaly_penalty m);
        sub_scores = record {
          latency = round_to 3 l;
          cost = round_to 3 c;
          capability = round_to 3 k;
          success = round_to 3 s;
        };
      }

  abbrev pub higher_score : ScoredProvider F → ScoredProvider F → Bool
  higher_score a b = flt b.score a.score

  -- The order of the second sort: half-open circuits, then higher scores.
  unfoldable pub probe_less :
      Dict Text (ProviderHealth F) → ScoredProvider F → ScoredProvider F → Bool
  probe_less health a b =
      let x = is_half_open_in health a.provider.name in
      let y = is_half_open_in health b.provider.name in
      if x then (if y then higher_score a b else true) else (if y then false else higher_score a b)

  abbrev pub any_half_open : Dict Text (ProviderHealth F) → Bool
  any_half_open = any_by (λ e. is_half_open e.1.circuit_state)

  unfoldable pub order_scored :
      Dict Text (ProviderHealth F) → List (ScoredProvider F) → List (ScoredProvider F)
  order_scored health scored =
      let by_score = sort_by higher_score scored in
      if any_half_open health then sort_by (probe_less health) by_score else by_score

  unfoldable pub rank :
      RoutingPolicy F
      → List (ProviderInfo F)
      → Dict Text (ProviderHealth F)
      → RankOptions F
      → List (ScoredProvider F)
  rank policy providers health o =
      let usable = usable_providers health providers in
      let worst_latency = worst_of (λ p. p.typical_latency_ms) usable in
      let worst_cost = worst_of (λ p. p.cost_per_1k_tokens) usable in
      order_scored health (map (score_provider policy health o worst_latency worst_cost) usable)
