-- ===== src/Router/PolicyEngine/Blocks.antt =====
-- Which providers the rules block.
use intelli_route_team.Common.{
  ◌≡◌, refl, Bool, not, ◌&&◌, ◌||◌, List, [], ◌∷◌, ◌++◌, Text, text_eq, ◌==◌, text_beq_iff, arith,
  if◌then◌else◌,
}
use intelli_route_team.Common.Float.{Float}
use intelli_route_team.Router.Provider.{reasoning, batch, intent_beq, ProviderInfo}
use intelli_route_team.Router.PolicyEngine.{
  PolicyEngineConfig, RuleContext, RuleState, member, add_name,
}
use intelli_route_team.Router.PolicyEngine.Rules.{
  no_blocks, is_premium, block, costs_too_much, sheds_premium, sheds_slow,
  rule_batch_avoids_premium, rule_premium_requires_reasoning_or_complexity,
  rule_budget_downgrades_premium, team_budget_control, team_cap_control, rule_team_budget_controls,
  rule_workflow_budget_controls, rule_brownout_degradation, rule_interactive_latency_gate,
  run_rules,
}
use intelli_route_team.Router.PolicyEngine.Reasons.{
  all_reasons, named, degraded_request, simple_prompt, workflow_pressed, tenant_pressed,
  team_over_budget, team_over_cap, team_pressed, gate_applies, expensive, gated, slower_than,
  must_block, named-costs_too_much, named-sheds_slow, named-must_block, named-sheds_premium,
}

any_by-append : (n : Text) (xs ys : List Text) → member n (xs ++ ys) ≡ (member n xs || member n ys)
any_by-append n [] ys = refl
any_by-append n (x ∷ xs) ys = ground (arith, any_by-append n xs ys)

member-add_name :
    (n k : Text) (names : List Text) → member n (add_name names k) ≡ (member n names || (k == n))
member-add_name n k names = ground (arith, any_by-append n names (k ∷ []), text_beq_iff k n)

module _ {F : Type 0} ⦃fl : Float F⦄ (config : PolicyEngineConfig F) (ctx : RuleContext F) where
  open fl use {ratio, fle}

  member-block :
      (n : Text) (test : ProviderInfo F → Bool) (ps : List (ProviderInfo F)) (names : List Text)
      → member n (block test ps names) ≡ (member n names || named config ctx n test ps)
  member-block n test [] names = ground arith
  member-block n test (p ∷ ps) names = ground (
    arith,
    member-block n test ps (if test p then add_name names p.name else names),
    member-add_name n p.name names,
  )

  batch_blocks :
      (n : Text) (s : RuleState F)
      → member n (rule_batch_avoids_premium config ctx s).blocked ≡ (
          member n s.blocked
          || (intent_beq ctx.intent batch
              && named config ctx n (is_premium config ctx) ctx.providers))
  unfolding rule_batch_avoids_premium
  batch_blocks n s = ground (arith, member-block n (is_premium config ctx) ctx.providers s.blocked)

  complexity_blocks :
      (n : Text) (s : RuleState F)
      → member n (rule_premium_requires_reasoning_or_complexity config ctx s).blocked ≡ (
          member n s.blocked
          || ((not (intent_beq ctx.intent reasoning) && (simple_prompt config ctx))
              && named config ctx n (is_premium config ctx) ctx.providers))
  unfolding rule_premium_requires_reasoning_or_complexity
  complexity_blocks n s =
      ground (arith, member-block n (is_premium config ctx) ctx.providers s.blocked)

  tenant_blocks :
      (n : Text) (s : RuleState F)
      → member n (rule_budget_downgrades_premium config ctx s).blocked ≡ (
          member n s.blocked
          || ((tenant_pressed config ctx)
              && named config ctx n (is_premium config ctx) ctx.providers))
  unfolding rule_budget_downgrades_premium
  tenant_blocks n s = ground (arith, member-block n (is_premium config ctx) ctx.providers s.blocked)

  team_budget_blocks :
      (n : Text) (s : RuleState F)
      → member n (team_budget_control config ctx s).blocked ≡ (
          member n s.blocked
          || ((team_over_budget config ctx)
              && named config ctx n (is_premium config ctx) ctx.providers))
  unfolding team_budget_control
  team_budget_blocks n s =
      ground (arith, member-block n (is_premium config ctx) ctx.providers s.blocked)

  team_cap_blocks :
      (n : Text) (s : RuleState F)
      → member n (team_cap_control config ctx s).blocked ≡ (
          member n s.blocked
          || ((team_over_cap config ctx)
              && named config ctx n (is_premium config ctx) ctx.providers))
  unfolding team_cap_control
  team_cap_blocks n s =
      ground (arith, member-block n (is_premium config ctx) ctx.providers s.blocked)

  team_blocks :
      (n : Text) (s : RuleState F)
      → member n (rule_team_budget_controls config ctx s).blocked ≡ (
          member n s.blocked
          || ((team_pressed config ctx)
              && named config ctx n (is_premium config ctx) ctx.providers))
  unfolding rule_team_budget_controls
  team_blocks n s =
      ground (arith, team_cap_blocks n (team_budget_control config ctx s), team_budget_blocks n s)

  workflow_blocks :
      (n : Text) (s : RuleState F)
      → member n (rule_workflow_budget_controls config ctx s).blocked ≡ (
          member n s.blocked
          || ((workflow_pressed config ctx)
              && named config ctx n (costs_too_much config ctx) ctx.providers))
  unfolding rule_workflow_budget_controls
  workflow_blocks n s =
      ground (arith, member-block n (costs_too_much config ctx) ctx.providers s.blocked)

  brownout_blocks :
      (n : Text) (s : RuleState F)
      → member n (rule_brownout_degradation config ctx s).blocked ≡ (
          member n s.blocked
          || ((degraded_request config ctx)
              && named config ctx n (sheds_premium config ctx) ctx.providers)
          || ((degraded_request config ctx)
              && named config ctx n (sheds_slow config ctx) ctx.providers))
  unfolding rule_brownout_degradation
  brownout_blocks n s = ground (
    arith,
    member-block n (sheds_premium config ctx) ctx.providers s.blocked,
    member-block n (sheds_slow config ctx) ctx.providers
        (block (sheds_premium config ctx) ctx.providers s.blocked),
  )

  latency_blocks :
      (n : Text) (s : RuleState F)
      → member n (rule_interactive_latency_gate config ctx s).blocked ≡ (
          member n s.blocked
          || ((gate_applies config ctx) && named config ctx n (gated config ctx) ctx.providers))
  unfolding rule_interactive_latency_gate
  latency_blocks n s = ground (arith, member-block n (gated config ctx) ctx.providers s.blocked)

  pub run_rules_lem :
      (n : Text)
      → member n (run_rules config ctx).blocked
        ≡ named config ctx n (must_block config ctx) ctx.providers
  unfolding run_rules
  run_rules_lem n =
      let s1 = rule_batch_avoids_premium config ctx no_blocks in
      let s2 = rule_premium_requires_reasoning_or_complexity config ctx s1 in
      let s3 = rule_budget_downgrades_premium config ctx s2 in
      let s4 = rule_team_budget_controls config ctx s3 in
      let s5 = rule_workflow_budget_controls config ctx s4 in
      let s6 = rule_brownout_degradation config ctx s5 in
      rw
        (
          latency_blocks n s6,
          brownout_blocks n s5,
          workflow_blocks n s4,
          team_blocks n s3,
          tenant_blocks n s2,
          complexity_blocks n s1,
          batch_blocks n no_blocks,
        )
        (rw
          (
            named-must_block config ctx n ctx.providers,
            named-sheds_premium config ctx n ctx.providers,
            named-sheds_slow config ctx n ctx.providers,
            named-costs_too_much config ctx n ctx.providers,
          )
          (all_reasons (named config ctx n (is_premium config ctx) ctx.providers)
            (intent_beq ctx.intent batch)
            (not (intent_beq ctx.intent reasoning) && (simple_prompt config ctx))
            (tenant_pressed config ctx) (team_pressed config ctx) (workflow_pressed config ctx)
            (named config ctx n (expensive config ctx) ctx.providers) (degraded_request config ctx)
            ctx.brownout_block_premium ctx.brownout_prefer_low_latency
            (named config ctx n (slower_than config ctx ctx.brownout_max_latency_ms) ctx.providers)
            (gate_applies config ctx) (named config ctx n (gated config ctx) ctx.providers)))
