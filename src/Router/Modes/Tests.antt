-- ===== src/Router/Modes/Tests.antt =====
-- The modes on two candidates, in thousandths.
use intelli_route_team.Common.{
  ℕ, ◌≡◌, refl, none, List, [], ◌∷◌, Text, text_eq, ◌==◌, if◌then◌else◌,
}
use intelli_route_team.Common.Strings.{text}
use intelli_route_team.Common.Unit.{milli}
use intelli_route_team.Router.Provider.{code, batch, ProviderInfo, CompletionRequest}
use intelli_route_team.Router.Policy.{RoutingPolicy, new_policy}
use intelli_route_team.Router.Modes.{Modes}
use intelli_route_team.Router.Modes.Turns.{first_over, round_robin_fair}

abbrev provider : Text → ProviderInfo ℕ
provider name = record {
  name = name;
  url = name;
  model = name;
  provider_type = text "mock";
  capability = [];
  cost_per_1k_tokens = 2;
  typical_latency_ms = 400;
  max_concurrency = 4;
  capability_tier = 1;
  sla_p95_latency_ms = [];
  max_retries = 1;
}

abbrev candidates : List (ProviderInfo ℕ)
candidates = provider (text "b") ∷ provider (text "a") ∷ []

abbrev request : CompletionRequest ℕ
request = record {
  tenant_id = text "acme";
  team_id = none;
  workflow_id = none;
  messages = [];
  max_tokens = 16;
  temperature = 0;
  intent_hint = none;
  latency_budget_ms = none;
  confidence_hint = none;
}

abbrev policy : RoutingPolicy ℕ
policy = new_policy ⦃fl = milli⦄ none none

abbrev modes : Modes
modes = record { routing_mode = text "round_robin"; rr_cursor = 7; forced_failures = [] }

abbrev is_b : ProviderInfo ℕ → ℕ
is_b p = if p.name == text "b" then 1 else 0

round_robin_fair_example :
    first_over ⦃fl = milli⦄ is_b policy candidates []
      ((code, request) ∷ (batch, request) ∷ [])
      modes
    ≡ 1
round_robin_fair_example =
    round_robin_fair ⦃fl = milli⦄ is_b policy candidates []
      ((code, request) ∷ (batch, request) ∷ []) modes refl
