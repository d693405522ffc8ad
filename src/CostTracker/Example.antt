-- ===== src/CostTracker/Example.antt =====
-- Calls of the cost tracker for the runs at concrete inputs.
use Prim.Native.String.{String}
use intelli_route_team.Common.{ℕ, false, none, some, List, [], ◌∷◌}
use intelli_route_team.Common.Strings.{text}
use intelli_route_team.CostTracker.Accounting.{CostEvent, Call, event, budget, clear}

abbrev pub cost_event : String → String → ℕ → CostEvent ℕ
cost_event tenant provider cost = record {
  request_id = text "r";
  tenant_id = text tenant;
  team_id = some (text "core");
  workflow_id = none;
  provider = text provider;
  model = text "m";
  prompt_tokens = 10;
  completion_tokens = 20;
  estimated_cost_usd = cost;
  unix_ts = 5;
}

abbrev pub calls : List (Call ℕ)
calls =
    event (cost_event "acme" "gemini" 4)
    ∷ clear false
    ∷ budget (text "acme") 7
    ∷ event (cost_event "acme" "mock-fast" 3)
    ∷ event (cost_event "b" "groq" 9)
    ∷ event (cost_event "acme" "gemini" 2)
    ∷ []
