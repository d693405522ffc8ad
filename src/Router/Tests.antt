-- ===== src/Router/Tests.antt =====
-- The theorems about the router at concrete inputs, and runs of its code.
use Prim.Native.String.{String}
use intelli_route_team.Common.{
  ℕ, ◌≤◌, refl, true, false, none, some, List, [], ◌∷◌, arith, max, leb, count_by, if◌then◌else◌,
  ltb,
}
use intelli_route_team.Common.Strings.{text}
use intelli_route_team.Common.Float.{nat_float}
use intelli_route_team.Router.Provider.{interactive, ProviderInfo, ScoredProvider}
use intelli_route_team.Router.Completion.{
  timeout, CallResult, Environment, BudgetContext, RouteState, route, start,
}
use intelli_route_team.Router.Completion.Measure.{Returns}
use intelli_route_team.Router.Completion.Bounded.{calls, calls_bounded}
use intelli_route_team.Router.Completion.Complete.{is_about, IsEarned, route_accounts}
use intelli_route_team.Router.Completion.Flag.{IsHonest, route-IsHonest}

abbrev provider : String → ℕ → ℕ → ProviderInfo ℕ
provider name cost retries = record {
  name = text name;
  url = text "http";
  model = text "m";
  provider_type = text "mock";
  capability = [];
  cost_per_1k_tokens = cost;
  typical_latency_ms = 500;
  max_concurrency = 8;
  capability_tier = 2;
  sla_p95_latency_ms = [];
  max_retries = retries;
}

abbrev scored : String → ℕ → ℕ → ScoredProvider ℕ
scored name cost retries = record {
  provider = provider name cost retries;
  score = 1;
  sub_scores = record { latency = 1; cost = 1; capability = 1; success = 1 };
}

abbrev smart : ScoredProvider ℕ
smart = scored "mock-smart" 20 2

abbrev cheap : ScoredProvider ℕ
cheap = scored "mock-cheap" 1 1

abbrev ranked : List (ScoredProvider ℕ)
ranked = smart ∷ cheap ∷ []

abbrev budget : BudgetContext ℕ
budget = record {
  tenant_budget = some 50;
  tenant_spent = 45;
  team_budget = none;
  team_spent = 0;
  workflow_budget = none;
  workflow_spent = 0;
}

abbrev timed_out : CallResult ℕ
timed_out = record {
  ok = false;
  latency_ms = 900;
  error_kind = some timeout;
  retryable = true;
  prompt_tokens = 0;
  completion_tokens = 0;
}

abbrev silent : Environment ℕ
silent = record {
  quota_limit = λ name. none;
  used = λ pass name. 0;
  rate_allowed = λ pass name. true;
  call = λ pass p. timed_out;
}

calls_bounded_example :
    Returns
      (λ (st : RouteState ℕ). calls (text "mock-smart") st.log ≤ max 1 2)
      (λ v st. calls (text "mock-smart") st.log ≤ max 1 2)
      (route silent budget 500 interactive 20 (start ranked))
calls_bounded_example =
    calls_bounded silent budget 500 interactive (text "mock-smart") 2 20 ranked (omega arith)
      ((λ e. omega arith), ((λ e. omega arith), tt))

route_accounts_example :
    Returns
      (λ (st : RouteState ℕ). 1 ≤ count_by (is_about (text "mock-cheap")) st.log)
      (IsEarned silent budget 500 interactive
        (text "mock-cheap")
        (λ s. leb s.provider.capability_tier 2))
      (route silent budget 500 interactive 20 (start ranked))
route_accounts_example =
    route_accounts silent budget 500 interactive (text "mock-cheap")
      (λ s. leb s.provider.capability_tier 2) 20 ranked (omega arith) (omega arith)
      (refl, (refl, tt))

-- The first provider times out, and the one after it answers.
abbrev recovering : Environment ℕ
recovering = record silent {
  call = λ pass p.
      if ltb pass 2
      then timed_out
      else record timed_out { ok = true; error_kind = none; completion_tokens = 7 };
}

route-IsHonest_example :
    Returns
      (λ (st : RouteState ℕ). Unit)
      (IsHonest recovering budget 500 interactive ranked)
      (route recovering budget 500 interactive 20 (start ranked))
route-IsHonest_example = route-IsHonest recovering budget 500 interactive ranked 20 (omega arith)
