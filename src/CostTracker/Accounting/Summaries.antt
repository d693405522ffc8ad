-- ===== src/CostTracker/Accounting/Summaries.antt =====
-- The summaries and the budget status of `CostAccountant`.
use intelli_route_team.Common.{
  ℕ, ◌≡◌, Bool, false, ◌&&◌, Option, none, some, List, [], map, Text, text_eq, length,
  if◌then◌else◌,
}
use intelli_route_team.Common.Dict.{Dict, lookup}
use intelli_route_team.Common.Float.{Float, nought}
use intelli_route_team.Common.Sort.{sum_by}
use intelli_route_team.CostTracker.Accounting.{
  CostAccountant, ScopeRollup, Call, tokens_of, new_accountant, rollup_of, scope_of, premium_of,
  journal, perform_all,
}
use intelli_route_team.CostTracker.Accounting.Rollups.{events_for, rollups_are_sums}

pub record CostSummary (F : Type 0) : Type 0 where
  pub tenant_id : Text
  pub total_requests : ℕ
  pub total_tokens : ℕ
  pub total_cost_usd : F
  pub by_provider : Dict Text F

-- The `dict` of `_summary_from_rollup`.
pub record ScopeSummary (F : Type 0) : Type 0 where
  pub id : Text
  pub total_requests : ℕ
  pub total_tokens : ℕ
  pub total_cost_usd : F

pub record TeamBudgetStatus (F : Type 0) : Type 0 where
  pub team_id : Text
  pub spent_usd : F
  pub budget_usd : Option F
  pub utilization : Option F
  pub premium_spend_usd : F
  pub premium_cap_usd : Option F
  pub premium_cap_hit : Bool

pub record WorkflowBudgetStatus (F : Type 0) : Type 0 where
  pub workflow_id : Text
  pub spent_usd : F
  pub budget_usd : Option F
  pub utilization : Option F
  pub budget_pressure : Bool

module _ {F : Type 0} ⦃fl : Float F⦄ where
  open fl use {ratio, div, fle, round_to}

  -- The rollup of a tenant without events is empty, and so is its summary.
  unfoldable pub summary : Text → CostAccountant F → CostSummary F
  summary tenant a =
      let r = rollup_of tenant a in
      record {
        tenant_id = tenant;
        total_requests = r.total_requests;
        total_tokens = r.total_tokens;
        total_cost_usd = elim (lookup tenant a.rollups) [
          | none ↦ nought
          | some r ↦ round_to 6 r.total_cost_usd
        ];
        by_provider = map (λ kv. (kv.0, round_to 6 kv.1)) r.by_provider;
      }

  -- `_summary_from_rollup`
  unfoldable pub summary_from_rollup : Text → ScopeRollup F → ScopeSummary F
  summary_from_rollup id r = record {
    id = id;
    total_requests = r.total_requests;
    total_tokens = r.total_tokens;
    total_cost_usd = round_to 6 r.total_cost_usd;
  }

  unfoldable pub team_summary : Text → CostAccountant F → ScopeSummary F
  team_summary team a = summary_from_rollup team (scope_of team a.team_rollups)

  unfoldable pub workflow_summary : Text → CostAccountant F → ScopeSummary F
  workflow_summary workflow a = summary_from_rollup workflow (scope_of workflow a.workflow_rollups)

  unfoldable pub team_summaries : CostAccountant F → List (ScopeSummary F)
  team_summaries a = map (λ kv. summary_from_rollup kv.0 kv.1) a.team_rollups

  unfoldable pub workflow_summaries : CostAccountant F → List (ScopeSummary F)
  workflow_summaries a = map (λ kv. summary_from_rollup kv.0 kv.1) a.workflow_rollups

  -- `None if budget in (None, 0) else spent / budget`
  abbrev utilization_of : F → Option F → Option F
  utilization_of spent none = none
  utilization_of spent (some b) = if fle b nought && fle nought b then none else some (div spent b)

  abbrev at_least : F → Option F → Bool
  at_least x none = false
  at_least x (some y) = fle x y

  abbrev reaches : Option F → F → Bool
  reaches none spend = false
  reaches (some cap) spend = fle cap spend

  abbrev rounded : Option F → Option F
  rounded none = none
  rounded (some x) = some (round_to 4 x)

  unfoldable pub team_budget_status : Text → CostAccountant F → TeamBudgetStatus F
  team_budget_status team a =
      let spent = (scope_of team a.team_rollups).total_cost_usd in
      let budget = lookup team a.team_budgets in
      let cap = lookup team a.team_premium_caps in
      record {
        team_id = team;
        spent_usd = round_to 6 spent;
        budget_usd = budget;
        utilization = rounded (utilization_of spent budget);
        premium_spend_usd = round_to 6 (premium_of team a);
        premium_cap_usd = cap;
        premium_cap_hit = reaches cap (premium_of team a);
      }

  unfoldable pub workflow_budget_status : Text → CostAccountant F → WorkflowBudgetStatus F
  workflow_budget_status workflow a =
      let spent = (scope_of workflow a.workflow_rollups).total_cost_usd in
      let budget = lookup workflow a.workflow_budgets in
      let util = utilization_of spent budget in
      record {
        workflow_id = workflow;
        spent_usd = round_to 6 spent;
        budget_usd = budget;
        utilization = rounded util;
        budget_pressure = at_least (ratio 85 100) util;
      }

  -- After any calls to a new accountant, a tenant's summary has the number and the tokens of its
  -- events since the last reset.
  summary-journal :
      (tenant : Text) (cs : List (Call F)) (budgets : Dict Text F) (n : ℕ)
      → let s = summary tenant (perform_all cs (new_accountant budgets n)) in
        let es = events_for tenant (journal [] cs) in
        (s.total_requests ≡ length es) × (s.total_tokens ≡ sum_by tokens_of es)
  unfolding summary
  summary-journal tenant cs budgets n =
      let v = rollups_are_sums tenant cs budgets n in (v.requests, v.tokens)
