-- ===== src/Router/Policy/Tests.antt =====
-- The ranking on three providers, in thousandths: one has an open circuit, one a half-open circuit.
use intelli_route_team.Common.{ℕ, ◌*◌, ◌≡◌, true, none, some, List, [], ◌∷◌, Text, text_eq}
use intelli_route_team.Common.Dict.{Dict}
use intelli_route_team.Common.Strings.{text}
use intelli_route_team.Common.Sort.{sum_by}
use intelli_route_team.Common.Unit.{milli, milli-IsFloat}
use intelli_route_team.HealthMonitor.Breaker.{CircuitState, closed, open_, half_open}
use intelli_route_team.HealthMonitor.Monitor.{ProviderHealth}
use intelli_route_team.Router.Provider.{code, ProviderInfo, ScoredProvider}
use intelli_route_team.Router.Policy.{RoutingPolicy, RankOptions, new_policy, rank}
use intelli_route_team.Router.Policy.Order.{eligible, IsRanked, rank-IsRanked}

abbrev provider : Text → ℕ → ℕ → ProviderInfo ℕ
provider name latency tier = record {
  name = name;
  url = name;
  model = name;
  provider_type = text "mock";
  capability = (text "code", 900) ∷ [];
  cost_per_1k_tokens = 2;
  typical_latency_ms = latency * 1000;
  max_concurrency = 4;
  capability_tier = tier;
  sla_p95_latency_ms = (text "code", 500 * 1000) ∷ [];
  max_retries = 1;
}

abbrev providers : List (ProviderInfo ℕ)
providers =
    provider (text "fast") 120 1 ∷ provider (text "smart") 800 3 ∷ provider (text "down") 90 2 ∷ []

abbrev health_in : Text → CircuitState → Text × ProviderHealth ℕ
health_in name state = (
  name,
  record {
    name = name;
    healthy = true;
    error_rate = 250;
    avg_latency_ms = 0;
    circuit_state = state;
    consecutive_failures = 0;
    last_checked_unix = 0;
  },
)

abbrev health : Dict Text (ProviderHealth ℕ)
health =
    health_in (text "fast") closed
    ∷ health_in (text "smart") half_open
    ∷ health_in (text "down") open_
    ∷ []

abbrev policy : RoutingPolicy ℕ
policy = new_policy ⦃fl = milli⦄ none none

abbrev options : RankOptions ℕ
options = record {
  intent = code;
  latency_budget_ms = some 400;
  confidence_hint = some 300;
  premium_threshold = 700;
}

rank-IsRanked_example :
    let ranked = rank ⦃fl = milli⦄ policy providers health options in
    IsRanked ⦃fl = milli⦄ health ranked
    × (sum_by (λ (s : ScoredProvider ℕ). s.provider.capability_tier) ranked
        ≡ sum_by
            (λ (p : ProviderInfo ℕ). p.capability_tier)
            (eligible ⦃fl = milli⦄ health providers))
rank-IsRanked_example =
    rank-IsRanked ⦃fl = milli⦄ milli-IsFloat policy providers health options
      (λ p. p.capability_tier)
