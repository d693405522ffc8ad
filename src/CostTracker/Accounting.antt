-- ===== src/CostTracker/Accounting.antt =====
-- `CostAccountant` of intelliroute/cost_tracker/accounting.py. The lock makes each method one step.
pub mod Queries
pub mod Summaries
pub mod Rollups
pub mod Alerts
pub mod History
use intelli_route_team.Common.{
  ℕ, ◌+◌, ◌-◌, Bool, true, false, not, ◌&&◌, ◌||◌, Option, none, some, List, [], ◌∷◌, ◌++◌, map,
  Text, text_eq, ◌==◌, length, take, drop, filter_by, any_by, count_by, push_bounded, if◌then◌else◌,
}
use intelli_route_team.Common.Dict.{Dict, lookup, insert}
use intelli_route_team.Common.Float.{Float, nought, of_ℕ, flt}
use intelli_route_team.Common.Strings.{text, lower, contains}

-- `CostEvent` of common/models.py
pub record CostEvent (F : Type 0) : Type 0 where
  pub request_id : Text
  pub tenant_id : Text
  pub team_id : Option Text
  pub workflow_id : Option Text
  pub provider : Text
  pub model : Text
  pub prompt_tokens : ℕ
  pub completion_tokens : ℕ
  pub estimated_cost_usd : F
  pub unix_ts : F

pub record TenantRollup (F : Type 0) : Type 0 where
  pub total_requests : ℕ
  pub total_tokens : ℕ
  pub total_cost_usd : F
  pub by_provider : Dict Text F

pub record ScopeRollup (F : Type 0) : Type 0 where
  pub total_requests : ℕ
  pub total_tokens : ℕ
  pub total_cost_usd : F

-- What an alert's message prints.
pub record Alert (F : Type 0) : Type 0 where
  pub tenant_id : Text
  pub spent : F
  pub budget : F

pub record CostAccountant (F : Type 0) : Type 0 where
  pub rollups : Dict Text (TenantRollup F)
  pub team_rollups : Dict Text (ScopeRollup F)
  pub workflow_rollups : Dict Text (ScopeRollup F)
  pub budgets : Dict Text F
  pub team_budgets : Dict Text F
  pub workflow_budgets : Dict Text F
  pub team_premium_caps : Dict Text F
  pub team_premium_spend : Dict Text F
  pub alerts : List (Alert F)
  pub crossed : List Text
  pub event_log : List (CostEvent F)
  pub max_history : ℕ

abbrev pub tokens_of : {F : Type 0} → CostEvent F → ℕ
tokens_of e = e.prompt_tokens + e.completion_tokens

-- `_is_premium_provider`
unfoldable pub is_premium_provider : Text → Bool
is_premium_provider provider =
    let p = lower provider in contains p (text "smart") || contains p (text "gemini")

-- `if scope_id`: an empty string is no scope.
abbrev pub named_scope : Option Text → Option Text
named_scope none = none
named_scope (some []) = none
named_scope (some (c ∷ t)) = some (c ∷ t)

-- `tenant in self._crossed`
abbrev pub has_crossed : {F : Type 0} → Text → CostAccountant F → Bool
has_crossed tenant a = any_by (λ t. t == tenant) a.crossed

module _ {F : Type 0} ⦃fl : Float F⦄ where
  open fl use {add, sub, div, fle}

  abbrev pub new_accountant : Dict Text F → ℕ → CostAccountant F
  new_accountant budgets max_history = record {
    rollups = [];
    team_rollups = [];
    workflow_rollups = [];
    budgets = budgets;
    team_budgets = [];
    workflow_budgets = [];
    team_premium_caps = [];
    team_premium_spend = [];
    alerts = [];
    crossed = [];
    event_log = [];
    max_history = max_history;
  }

  unfoldable pub set_budget : Text → F → CostAccountant F → CostAccountant F
  set_budget tenant budget a = record a { budgets = insert tenant budget a.budgets }

  unfoldable pub set_team_budget : Text → F → CostAccountant F → CostAccountant F
  set_team_budget team budget a = record a { team_budgets = insert team budget a.team_budgets }

  unfoldable pub set_workflow_budget : Text → F → CostAccountant F → CostAccountant F
  set_workflow_budget workflow budget a = record a {
    workflow_budgets = insert workflow budget a.workflow_budgets;
  }

  unfoldable pub set_team_premium_cap : Text → F → CostAccountant F → CostAccountant F
  set_team_premium_cap team cap a = record a {
    team_premium_caps = insert team cap a.team_premium_caps;
  }

  -- The rollups as a `defaultdict` gives them.
  abbrev or_empty : Option (TenantRollup F) → TenantRollup F
  or_empty (some r) = r
  or_empty none = record {
    total_requests = 0;
    total_tokens = 0;
    total_cost_usd = nought;
    by_provider = [];
  }

  abbrev or_empty_scope : Option (ScopeRollup F) → ScopeRollup F
  or_empty_scope (some r) = r
  or_empty_scope none = record { total_requests = 0; total_tokens = 0; total_cost_usd = nought }

  abbrev pub or_nought : Option F → F
  or_nought (some x) = x
  or_nought none = nought

  abbrev pub rollup_of : Text → CostAccountant F → TenantRollup F
  rollup_of tenant a = or_empty (lookup tenant a.rollups)

  abbrev pub scope_of : Text → Dict Text (ScopeRollup F) → ScopeRollup F
  scope_of id d = or_empty_scope (lookup id d)

  abbrev pub premium_of : Text → CostAccountant F → F
  premium_of team a = or_nought (lookup team a.team_premium_spend)

  abbrev pub charge : CostEvent F → TenantRollup F → TenantRollup F
  charge e r = record {
    total_requests = r.total_requests + 1;
    total_tokens = r.total_tokens + tokens_of e;
    total_cost_usd = add r.total_cost_usd e.estimated_cost_usd;
    by_provider =
        insert e.provider (add (or_nought (lookup e.provider r.by_provider)) e.estimated_cost_usd)
          r.by_provider;
  }

  abbrev charge_scope : CostEvent F → ScopeRollup F → ScopeRollup F
  charge_scope e r = record {
    total_requests = r.total_requests + 1;
    total_tokens = r.total_tokens + tokens_of e;
    total_cost_usd = add r.total_cost_usd e.estimated_cost_usd;
  }

  abbrev record_scope :
      CostEvent F → Option Text → Dict Text (ScopeRollup F) → Dict Text (ScopeRollup F)
  record_scope e none d = d
  record_scope e (some id) d = insert id (charge_scope e (scope_of id d)) d

  abbrev record_premium : CostEvent F → Option Text → Dict Text F → Dict Text F
  record_premium e none d = d
  record_premium e (some team) d =
      if is_premium_provider e.provider
      then insert team (add (or_nought (lookup team d)) e.estimated_cost_usd) d
      else d

  -- The alert of `record` for a tenant that has spent `spent`.
  unfoldable pub alert_over : Text → F → Option F → CostAccountant F → CostAccountant F
  alert_over tenant spent none a = a
  alert_over tenant spent (some budget) a =
      if flt budget spent && not (has_crossed tenant a)
      then record a {
        crossed = tenant ∷ a.crossed;
        alerts = a.alerts ++ (record { tenant_id = tenant; spent = spent; budget = budget } ∷ []);
      }
      else a

  -- `record` up to the alert
  unfoldable pub charge_event : CostEvent F → CostAccountant F → CostAccountant F
  charge_event e a = record a {
    event_log = push_bounded a.max_history a.event_log e;
    rollups = insert e.tenant_id (charge e (rollup_of e.tenant_id a)) a.rollups;
    team_rollups = record_scope e (named_scope e.team_id) a.team_rollups;
    team_premium_spend = record_premium e (named_scope e.team_id) a.team_premium_spend;
    workflow_rollups = record_scope e (named_scope e.workflow_id) a.workflow_rollups;
  }

  -- `record`
  unfoldable pub record_event : CostEvent F → CostAccountant F → CostAccountant F
  record_event e a =
      let a' = charge_event e a in
      alert_over e.tenant_id (rollup_of e.tenant_id a').total_cost_usd
        (lookup e.tenant_id a'.budgets) a'

  unfoldable pub reset : Bool → CostAccountant F → CostAccountant F
  reset clear_budgets a = record a {
    rollups = [];
    team_rollups = [];
    workflow_rollups = [];
    alerts = [];
    crossed = [];
    team_premium_spend = [];
    event_log = [];
    budgets = if clear_budgets then [] else a.budgets;
    team_budgets = if clear_budgets then [] else a.team_budgets;
    workflow_budgets = if clear_budgets then [] else a.workflow_budgets;
    team_premium_caps = if clear_budgets then [] else a.team_premium_caps;
  }

-- The calls of cost_tracker/main.py that change the accountant.
pub data Call (F : Type 0) : Type 0 where
  event : CostEvent F → Call F
  budget : Text → F → Call F
  team_budget : Text → F → Call F
  workflow_budget : Text → F → Call F
  premium_cap : Text → F → Call F
  clear : Bool → Call F

module _ {F : Type 0} ⦃fl : Float F⦄ where
  unfoldable pub perform : Call F → CostAccountant F → CostAccountant F
  perform (event e) a = record_event e a
  perform (budget t x) a = set_budget t x a
  perform (team_budget t x) a = set_team_budget t x a
  perform (workflow_budget t x) a = set_workflow_budget t x a
  perform (premium_cap t x) a = set_team_premium_cap t x a
  perform (clear c) a = reset c a

  unfoldable pub perform_all : List (Call F) → CostAccountant F → CostAccountant F
  perform_all [] a = a
  perform_all (c ∷ cs) a = perform_all cs (perform c a)

-- The events recorded since the last reset, after `es`.
unfoldable pub journal : {F : Type 0} → List (CostEvent F) → List (Call F) → List (CostEvent F)
journal es [] = es
journal es (event e ∷ cs) = journal (es ++ (e ∷ [])) cs
journal es (clear c ∷ cs) = journal [] cs
journal es (_ ∷ cs) = journal es cs
