-- ===== src/Router/PolicyEngine.antt =====
-- `PolicyEvaluator` of intelliroute/router/policy_engine/evaluator.py: the rules that take providers
-- from a request before the ranking. The complexity of the prompt, which is found by regular
-- expressions, is an argument. Texts with numbers in them are constructors with the numbers.
pub mod Rules
pub mod Evaluate
pub mod Reasons
pub mod Blocks
pub mod Allowed
mod Tests
use intelli_route_team.Common.{
  ℕ, Bool, true, false, not, ◌&&◌, ◌||◌, Option, none, some, List, [], ◌∷◌, ◌++◌, map, Text,
  text_eq, ◌==◌, leb, if◌then◌else◌, any_by, filter_by, foldl_by,
}
use intelli_route_team.Common.Float.{Float, nought, of_ℕ, flt}
use intelli_route_team.Common.Sort.{sort_by}
use intelli_route_team.Common.Strings.{text_ltb}
use intelli_route_team.Router.Provider.{
  Intent, interactive, reasoning, batch, code, intent_beq, ProviderInfo,
}

pub record ComplexityResult (F : Type 0) : Type 0 where
  pub score : F
  pub signals : List Text

-- `PolicyEngineConfig` of config.py
pub record PolicyEngineConfig (F : Type 0) : Type 0 where
  pub enabled : Bool
  pub premium_provider_names : List Text
  pub complexity_threshold_premium : F
  pub budget_utilization_downgrade : F
  pub team_budget_utilization_downgrade : F
  pub workflow_budget_utilization_downgrade : F
  pub team_premium_cap_utilization : F
  pub interactive_max_latency_ms : ℕ
  pub apply_interactive_latency_gate : Bool

-- What the rules read of `BrownoutStatus`.
pub record BrownoutStatus : Type 0 where
  pub is_degraded : Bool
  pub reason : Option Text

-- The arguments of `evaluate` that the rules read.
pub record RuleContext (F : Type 0) : Type 0 where
  pub providers : List (ProviderInfo F)
  pub intent : Intent
  pub complexity : ComplexityResult F
  pub tenant_budget_usd : Option F
  pub tenant_spent_usd : F
  pub team_id : Option Text
  pub workflow_id : Option Text
  pub team_budget_usd : Option F
  pub team_spent_usd : F
  pub workflow_budget_usd : Option F
  pub workflow_spent_usd : F
  pub team_premium_cap_usd : Option F
  pub team_premium_spend_usd : F
  pub brownout_status : Option BrownoutStatus
  pub brownout_max_latency_ms : Option ℕ
  pub brownout_block_premium : Bool
  pub brownout_prefer_low_latency : Bool

pub data MatchedRule : Type 0 where
  batch_avoids_premium : MatchedRule
  premium_requires_reasoning_or_high_complexity : MatchedRule
  tenant_budget_pressure_blocks_premium : MatchedRule
  team_budget_pressure_blocks_premium : MatchedRule
  team_premium_cap_reached : MatchedRule
  workflow_budget_pressure_cost_optimize : MatchedRule
  brownout_degrade_low_priority_routing : MatchedRule
  interactive_latency_gate_max_ms : ℕ → MatchedRule
  fail_open_restore_full_provider_set : MatchedRule

-- The scope with its action and reason; the number is the utilization.
pub data BudgetAction (F : Type 0) : Type 0 where
  tenant_restrict_premium : F → BudgetAction F
  team_restrict_premium : F → BudgetAction F
  team_premium_cap_hit : F → BudgetAction F
  workflow_prefer_cheaper : F → BudgetAction F

pub data DowngradeReason (F : Type 0) : Type 0 where
  budget_utilization : F → F → DowngradeReason F
  team_budget_utilization : F → F → DowngradeReason F
  brownout_active : Option Text → DowngradeReason F

-- What the rules change: the mutable fields of `_RuleContext`.
pub record RuleState (F : Type 0) : Type 0 where
  pub blocked : List Text
  pub matched : List MatchedRule
  pub budget_actions : List (BudgetAction F)
  pub downgrade_reason : Option (DowngradeReason F)

pub record PolicyEvaluationResult (F : Type 0) : Type 0 where
  pub complexity_score : F
  pub complexity_signals : List Text
  pub allowed_providers : List Text
  pub blocked_providers : List Text
  pub matched_rules : List MatchedRule
  pub budget_actions : List (BudgetAction F)
  pub downgrade_reason : Option (DowngradeReason F)
  pub fail_open : Bool

-- `name in names`
abbrev pub member : Text → List Text → Bool
member name names = any_by (λ n. n == name) names

-- `blocked.add(name)`
abbrev pub add_name : List Text → Text → List Text
add_name names name = if member name names then names else names ++ (name ∷ [])

-- `if team_id`: neither `None` nor empty
abbrev pub is_given : Option Text → Bool
is_given none = false
is_given (some []) = false
is_given (some (c ∷ t)) = true

abbrev pub or_else {ℓ} : {A : Type ℓ} → Option A → A → Option A
or_else none a = some a
or_else (some x) a = some x
