-- ===== src/CostTracker/Service.antt =====
-- intelliroute/cost_tracker/main.py: the handlers over one accountant, with the count of events that
-- `/reset` leaves alone. Those that only return what a method of the accountant gives are that method.
pub mod Totals
pub mod Paging
mod Tests
use intelli_route_team.Common.{
  ℕ, ◌+◌, Bool, Option, some, List, [], ◌∷◌, Text, length, leb, if◌then◌else◌,
}
use intelli_route_team.Common.Dict.{Dict}
use intelli_route_team.Common.Float.{Float, nought}
use intelli_route_team.Common.Sort.{sum_by}
use intelli_route_team.CostTracker.Accounting.{
  CostEvent, CostAccountant, TenantRollup, new_accountant, Call, event, budget, team_budget,
  workflow_budget, premium_cap, clear, perform,
}
use intelli_route_team.CostTracker.Accounting.Queries.{event_history, total_event_count}

-- The module's `accountant` and `_total_events`.
pub record CostService (F : Type 0) : Type 0 where
  pub accountant : CostAccountant F
  pub total_events : ℕ

abbrev counted : {F : Type 0} → Call F → ℕ → ℕ
counted (event e) n = n + 1
counted (budget t x) n = n
counted (team_budget t x) n = n
counted (workflow_budget t x) n = n
counted (premium_cap t x) n = n
counted (clear c) n = n

pub record EventPage (F : Type 0) : Type 0 where
  pub tenant_id : Text
  pub offset : ℕ
  pub limit : ℕ
  pub total : ℕ
  pub count : ℕ
  pub events : List (CostEvent F)

pub record CostTrackerStats (F : Type 0) : Type 0 where
  pub total_tenants : ℕ
  pub total_events_received : ℕ
  pub platform_total_requests : ℕ
  pub platform_total_cost_usd : F
  pub active_tenant_budgets : ℕ
  pub active_team_budgets : ℕ
  pub active_workflow_budgets : ℕ
  pub triggered_alerts : ℕ

-- `min(limit, 500)`
abbrev pub clamped : ℕ → ℕ
clamped limit = if leb limit 500 then limit else 500

abbrev pub requests_in : {F : Type 0} → Dict Text (TenantRollup F) → ℕ
requests_in rollups = sum_by (λ r. r.1.total_requests) rollups

module _ {F : Type 0} ⦃fl : Float F⦄ where
  open fl use {add, round_to}

  abbrev pub new_service : Dict Text F → ℕ → CostService F
  new_service budgets max_history = record {
    accountant = new_accountant budgets max_history;
    total_events = 0;
  }

  -- `record`, `set_budget`, `set_team_budget`, `set_workflow_budget`, `set_team_premium_cap`,
  -- `reset_state`
  unfoldable pub serve : Call F → CostService F → CostService F
  serve c s = record {
    accountant = perform c s.accountant;
    total_events = counted c s.total_events;
  }

  abbrev pub serve_all : List (Call F) → CostService F → CostService F
  serve_all [] s = s
  serve_all (c ∷ cs) s = serve_all cs (serve c s)

  -- `event_history`
  unfoldable pub history_page : Text → ℕ → ℕ → CostService F → EventPage F
  history_page tenant limit offset s =
      let events = event_history (some tenant) (clamped limit) offset s.accountant in
      record {
        tenant_id = tenant;
        offset = offset;
        limit = clamped limit;
        total = total_event_count (some tenant) s.accountant;
        count = length events;
        events = events;
      }

  abbrev cost_in : Dict Text (TenantRollup F) → F → F
  cost_in [] sum = sum
  cost_in ((tenant, r) ∷ rollups) sum = cost_in rollups (add sum r.total_cost_usd)

  -- `cost_stats`
  unfoldable pub cost_stats : CostService F → CostTrackerStats F
  cost_stats s =
      let a = s.accountant in
      record {
        total_tenants = length a.rollups;
        total_events_received = s.total_events;
        platform_total_requests = requests_in a.rollups;
        platform_total_cost_usd = round_to 6 (cost_in a.rollups nought);
        active_tenant_budgets = length a.budgets;
        active_team_budgets = length a.team_budgets;
        active_workflow_budgets = length a.workflow_budgets;
        triggered_alerts = length a.alerts;
      }
