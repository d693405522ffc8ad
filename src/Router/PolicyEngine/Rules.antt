-- ===== src/Router/PolicyEngine/Rules.antt =====
-- The rules of `PolicyEvaluator` in intelliroute/router/policy_engine/evaluator.py, and their order.
use intelli_route_team.Common.{
  Bool, false, not, ◌&&◌, ◌||◌, Option, none, some, List, [], ◌∷◌, ◌++◌, Text, text_eq,
  if◌then◌else◌, any_by,
}
use intelli_route_team.Common.Float.{Float, nought, of_ℕ, flt}
use intelli_route_team.Router.Provider.{
  interactive, reasoning, batch, code, intent_beq, ProviderInfo,
}
use intelli_route_team.Router.PolicyEngine.{
  PolicyEngineConfig, RuleContext, MatchedRule, BudgetAction, DowngradeReason, RuleState, member,
  add_name, is_given, or_else, batch_avoids_premium, premium_requires_reasoning_or_high_complexity,
  tenant_budget_pressure_blocks_premium, team_budget_pressure_blocks_premium,
  team_premium_cap_reached, workflow_budget_pressure_cost_optimize,
  brownout_degrade_low_priority_routing, interactive_latency_gate_max_ms, tenant_restrict_premium,
  team_restrict_premium, team_premium_cap_hit, workflow_prefer_cheaper, budget_utilization,
  team_budget_utilization, brownout_active,
}

module _ {F : Type 0} ⦃fl : Float F⦄ where
  open fl use {div, fle}

  -- A loop over the providers that blocks those of the test.
  abbrev pub block : (ProviderInfo F → Bool) → List (ProviderInfo F) → List Text → List Text
  block test [] blocked = blocked
  block test (p ∷ ps) blocked = block test ps (if test p then add_name blocked p.name else blocked)

  abbrev match : MatchedRule → RuleState F → RuleState F
  match rule s = record s { matched = s.matched ++ (rule ∷ []) }

  abbrev act : BudgetAction F → RuleState F → RuleState F
  act a s = record s { budget_actions = s.budget_actions ++ (a ∷ []) }

  abbrev explain : DowngradeReason F → RuleState F → RuleState F
  explain r s = record s { downgrade_reason = some r }

  abbrev explain_first : DowngradeReason F → RuleState F → RuleState F
  explain_first r s = record s { downgrade_reason = or_else s.downgrade_reason r }

  abbrev pub no_blocks : RuleState F
  no_blocks = record { blocked = []; matched = []; budget_actions = []; downgrade_reason = none }

  abbrev when : Bool → (RuleState F → RuleState F) → RuleState F → RuleState F
  when b f s = if b then f s else s

  -- The utilization of a budget that is given and positive.
  abbrev pub utilization : Option F → F → Option F
  utilization none spent = none
  utilization (some budget) spent = if fle budget nought then none else some (div spent budget)

  -- The utilization, if it reaches the threshold.
  abbrev pub pressure : Option F → F → F → Option F
  pressure budget spent threshold = elim (utilization budget spent) [
    | some util ↦ if flt util threshold then none else some util
    | none ↦ none
  ]

module _ {F : Type 0} ⦃fl : Float F⦄ (config : PolicyEngineConfig F) (ctx : RuleContext F) where
  open fl use {ratio, fle}

  -- `_is_premium`
  abbrev pub is_premium : ProviderInfo F → Bool
  is_premium p = member p.name config.premium_provider_names

  abbrev block_all : (ProviderInfo F → Bool) → RuleState F → RuleState F
  block_all test s = record s { blocked = block test ctx.providers s.blocked }

  -- Its flag `touched`.
  abbrev touched : (ProviderInfo F → Bool) → Bool
  touched test = any_by test ctx.providers

  unfoldable pub rule_batch_avoids_premium : RuleState F → RuleState F
  rule_batch_avoids_premium s =
      if not (intent_beq ctx.intent batch)
      then s
      else when (touched is_premium) (match batch_avoids_premium) (block_all is_premium s)

  unfoldable pub rule_premium_requires_reasoning_or_complexity : RuleState F → RuleState F
  rule_premium_requires_reasoning_or_complexity s =
      if intent_beq ctx.intent reasoning
      then s
      else if fle config.complexity_threshold_premium ctx.complexity.score
      then s
      else when (touched is_premium) (match premium_requires_reasoning_or_high_complexity)
          (block_all is_premium s)

  unfoldable pub rule_budget_downgrades_premium : RuleState F → RuleState F
  rule_budget_downgrades_premium s =
      let threshold = config.budget_utilization_downgrade in
      elim (pressure ctx.tenant_budget_usd ctx.tenant_spent_usd threshold) [
        | none ↦ s
        | some util ↦
            when (touched is_premium)
              (λ t. act (tenant_restrict_premium util) (
                explain (budget_utilization util threshold)
                  (match tenant_budget_pressure_blocks_premium t)))
              (block_all is_premium s)
      ]

  -- The team's budget, then its cap for premium providers.
  unfoldable pub team_budget_control : RuleState F → RuleState F
  team_budget_control s =
      let threshold = config.team_budget_utilization_downgrade in
      elim (pressure ctx.team_budget_usd ctx.team_spent_usd threshold) [
        | none ↦ s
        | some util ↦
            when (touched is_premium)
              (λ t.
                explain_first (team_budget_utilization util threshold)
                  (act (team_restrict_premium util) (match team_budget_pressure_blocks_premium t)))
              (block_all is_premium s)
      ]

  unfoldable pub team_cap_control : RuleState F → RuleState F
  team_cap_control s =
      elim (pressure ctx.team_premium_cap_usd ctx.team_premium_spend_usd
        config.team_premium_cap_utilization) [
          | none ↦ s
          | some cap_util ↦
              when (touched is_premium)
                (λ t. act (team_premium_cap_hit cap_util) (match team_premium_cap_reached t))
                (block_all is_premium s)
        ]

  unfoldable pub rule_team_budget_controls : RuleState F → RuleState F
  rule_team_budget_controls s =
      if not (is_given ctx.team_id) then s else team_cap_control (team_budget_control s)

  -- A batch request gives up the expensive providers too.
  abbrev pub costs_too_much : ProviderInfo F → Bool
  costs_too_much p =
      is_premium p || (intent_beq ctx.intent batch && flt (ratio 5 1000) p.cost_per_1k_tokens)

  unfoldable pub rule_workflow_budget_controls : RuleState F → RuleState F
  rule_workflow_budget_controls s =
      if not (is_given ctx.workflow_id)
      then s
      else elim (pressure ctx.workflow_budget_usd ctx.workflow_spent_usd
          config.workflow_budget_utilization_downgrade) [
            | none ↦ s
            | some util ↦
                when (touched costs_too_much)
                  (λ t.
                    act (workflow_prefer_cheaper util)
                      (match workflow_budget_pressure_cost_optimize t))
                  (block_all costs_too_much s)
          ]

  unfoldable pub rule_interactive_latency_gate : RuleState F → RuleState F
  rule_interactive_latency_gate s =
      let max_ms = config.interactive_max_latency_ms in
      let slow = λ (p : ProviderInfo F). flt (of_ℕ max_ms) p.typical_latency_ms in
      if not config.apply_interactive_latency_gate
      then s
      else if not (intent_beq ctx.intent interactive)
      then s
      else if fle config.complexity_threshold_premium ctx.complexity.score
      then s
      else when (touched slow) (match (interactive_latency_gate_max_ms max_ms)) (block_all slow s)

  abbrev pub sheds_premium : ProviderInfo F → Bool
  sheds_premium p = ctx.brownout_block_premium && is_premium p

  abbrev pub sheds_slow : ProviderInfo F → Bool
  sheds_slow p = ctx.brownout_prefer_low_latency && elim ctx.brownout_max_latency_ms [
    | some max_ms ↦ flt (of_ℕ max_ms) p.typical_latency_ms
    | none ↦ false
  ]

  unfoldable pub rule_brownout_degradation : RuleState F → RuleState F
  rule_brownout_degradation s = elim ctx.brownout_status [
    | none ↦ s
    | some bs ↦
        if not bs.is_degraded
        then s
        else if intent_beq ctx.intent interactive || intent_beq ctx.intent code
        then s
        else when (touched sheds_premium || touched sheds_slow)
            (λ t.
              explain_first (brownout_active bs.reason)
                (match brownout_degrade_low_priority_routing t))
            (block_all sheds_slow (block_all sheds_premium s))
  ]

  -- The rules in their order, on the state that `evaluate` begins with.
  unfoldable pub run_rules : RuleState F
  run_rules = rule_interactive_latency_gate (
      rule_brownout_degradation (
        rule_workflow_budget_controls (
          rule_team_budget_controls (
            rule_budget_downgrades_premium (
              rule_premium_requires_reasoning_or_complexity
                (rule_batch_avoids_premium no_blocks))))))
