-- ===== src/Router/Dispatch/Example.antt =====
-- A router with one provider, and a request, for the tests.
use intelli_route_team.Common.{ℕ, true, false, none, [], ◌∷◌}
use intelli_route_team.Common.Strings.{text}
use intelli_route_team.Common.Unit.{milli}
use intelli_route_team.HealthMonitor.Breaker.{open_}
use intelli_route_team.Router.Provider.{ProviderInfo, CompletionRequest}
use intelli_route_team.Router.Queue.{new_queue}
use intelli_route_team.Router.Brownout.{BrownoutConfig, new_manager}
use intelli_route_team.Router.Registry.{new_registry, register_bootstrap}
use intelli_route_team.Router.Policy.{new_policy}
use intelli_route_team.Router.Dispatch.{RouterConfig, RouterState, Answers}

abbrev pub provider : ProviderInfo ℕ
provider = record {
  name = text "gemini";
  url = [];
  model = text "pro";
  provider_type = text "gemini";
  capability = [];
  cost_per_1k_tokens = 2;
  typical_latency_ms = 400;
  max_concurrency = 4;
  capability_tier = 3;
  sla_p95_latency_ms = [];
  max_retries = 1;
}

abbrev pub request : CompletionRequest ℕ
request = record {
  tenant_id = text "acme";
  team_id = none;
  workflow_id = none;
  messages = [];
  max_tokens = 16;
  temperature = 0;
  intent_hint = none;
  latency_budget_ms = none;
  confidence_hint = none;
}

abbrev pub brownout : BrownoutConfig ℕ
brownout = record {
  enabled = true;
  queue_depth_enter = 60;
  queue_depth_exit = 30;
  p95_latency_ms_enter = 1400;
  p95_latency_ms_exit = 900;
  error_rate_enter = 500;
  error_rate_exit = 200;
  timeout_rate_enter = 500;
  timeout_rate_exit = 200;
  sample_window = 50;
  enter_consecutive = 2;
  exit_consecutive = 3;
  block_premium_for_medium_and_low = true;
  prefer_low_latency_for_medium_and_low = true;
  low_latency_max_ms = 700;
  reduce_max_tokens_for_medium_and_low = true;
  degraded_max_tokens = 120;
  drop_low_priority_when_degraded = false;
  delay_low_priority_ms = 0;
}

abbrev pub config : RouterConfig ℕ
config = record {
  policy_engine = record {
    enabled = true;
    premium_provider_names = text "gemini" ∷ [];
    complexity_threshold_premium = 500;
    budget_utilization_downgrade = 850;
    team_budget_utilization_downgrade = 850;
    workflow_budget_utilization_downgrade = 850;
    team_premium_cap_utilization = 1000;
    interactive_max_latency_ms = 650;
    apply_interactive_latency_gate = true;
  };
  policy = new_policy ⦃fl = milli⦄ none none;
  quota_settings = record {
    enable_provider_daily_quotas = false;
    gemini = 0;
    groq = 0;
    mock_fast = 0;
    mock_cheap = 0;
    mock_smart = 0;
    mock_fault = 0;
    provider_quota_warn_ratio = 800;
  };
}

abbrev pub answers : Answers ℕ
answers = record {
  health =
      (
        text "gemini",
        record {
          name = text "gemini";
          healthy = false;
          error_rate = 900;
          avg_latency_ms = 0;
          circuit_state = open_;
          consecutive_failures = 3;
          last_checked_unix = 0;
        },
      )
      ∷ [];
  budgets = record {
    tenant_budget_usd = none;
    tenant_spent_usd = 0;
    team_budget_usd = none;
    team_spent_usd = 0;
    workflow_budget_usd = none;
    workflow_spent_usd = 0;
    team_premium_cap_usd = none;
    team_premium_spend_usd = 0;
  };
  complexity = record { score = 0; signals = [] };
  now = 1000;
  day = text "2026-04-01";
  elapsed_ms = 5;
}

abbrev pub router : RouterState ℕ
router = record {
  registry = register_bootstrap provider 0 new_registry;
  request_queue =
      new_queue
        (record { max_depth = 3; max_low_priority = 1; shed_threshold = 2; timeout_ms = 5000 });
  brownout_manager = new_manager ⦃fl = milli⦄ brownout;
  tenant_brownout = [];
  modes = record { routing_mode = text "intelliroute"; rr_cursor = 0; forced_failures = [] };
  quotas = record { counts = [] };
}
