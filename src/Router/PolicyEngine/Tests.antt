-- ===== src/Router/PolicyEngine/Tests.antt =====
-- The policy engine on a cheap and a premium provider, in thousandths.
use intelli_route_team.Common.{ℕ, ◌*◌, ◌≡◌, true, false, none, some, List, [], ◌∷◌, Text}
use intelli_route_team.Common.Strings.{text}
use intelli_route_team.Common.Unit.{milli}
use intelli_route_team.Router.Provider.{batch, ProviderInfo}
use intelli_route_team.Router.PolicyEngine.{PolicyEngineConfig, RuleContext}
use intelli_route_team.Router.PolicyEngine.Evaluate.{evaluate}
use intelli_route_team.Router.PolicyEngine.Allowed.{evaluate-must_block}

abbrev provider : Text → ℕ → ProviderInfo ℕ
provider name latency = record {
  name = name;
  url = name;
  model = name;
  provider_type = text "mock";
  capability = [];
  cost_per_1k_tokens = 2;
  typical_latency_ms = latency * 1000;
  max_concurrency = 4;
  capability_tier = 1;
  sla_p95_latency_ms = [];
  max_retries = 1;
}

abbrev cheap : ProviderInfo ℕ
cheap = provider (text "mock-fast") 100

abbrev premium : ProviderInfo ℕ
premium = provider (text "gemini") 800

abbrev config : PolicyEngineConfig ℕ
config = record {
  enabled = true;
  premium_provider_names = text "gemini" ∷ [];
  complexity_threshold_premium = 500;
  budget_utilization_downgrade = 850;
  team_budget_utilization_downgrade = 850;
  workflow_budget_utilization_downgrade = 850;
  team_premium_cap_utilization = 1000;
  interactive_max_latency_ms = 650;
  apply_interactive_latency_gate = true;
}

abbrev context : List (ProviderInfo ℕ) → RuleContext ℕ
context ps = record {
  providers = ps;
  intent = batch;
  complexity = record { score = 800; signals = [] };
  tenant_budget_usd = some 10000;
  tenant_spent_usd = 9000;
  team_id = none;
  workflow_id = none;
  team_budget_usd = none;
  team_spent_usd = 0;
  workflow_budget_usd = none;
  workflow_spent_usd = 0;
  team_premium_cap_usd = none;
  team_premium_spend_usd = 0;
  brownout_status = none;
  brownout_max_latency_ms = none;
  brownout_block_premium = true;
  brownout_prefer_low_latency = true;
}

-- The premium provider goes, and the cheap one stays.
evaluate-must_block_example :
    ((evaluate ⦃fl = milli⦄ config (context (cheap ∷ premium ∷ []))).0 ≡ cheap ∷ [])
    × ((evaluate ⦃fl = milli⦄ config (context (cheap ∷ premium ∷ []))).1.fail_open ≡ false)
evaluate-must_block_example =
    evaluate-must_block ⦃fl = milli⦄ config (context (cheap ∷ premium ∷ []))
