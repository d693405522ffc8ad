-- ===== src/Router/PolicyEngine/Reasons.antt =====
-- Why the rules of the policy engine block a provider, written apart from the rules.
use intelli_route_team.Common.{
  ℕ, ◌≡◌, ◌∙◌, ap, refl, Bool, true, false, not, ◌&&◌, ◌||◌, Option, none, some, List, [], ◌∷◌,
  Text, text_eq, ◌==◌, arith, any_by,
}
use intelli_route_team.Common.Float.{Float, of_ℕ, flt}
use intelli_route_team.Common.Dict.{is_some}
use intelli_route_team.Router.Provider.{
  interactive, reasoning, batch, code, intent_beq, ProviderInfo,
}
use intelli_route_team.Router.PolicyEngine.{PolicyEngineConfig, RuleContext, is_given}
use intelli_route_team.Router.PolicyEngine.Rules.{
  is_premium, pressure, costs_too_much, sheds_premium, sheds_slow,
}

-- The flags of the rules, in the order of the rules and in that of `must_block`.
pub all_reasons :
    (premium is_batch plain tenant team workflow expensive shed block_premium low_latency slow gate
      late : Bool)
    → ((is_batch && premium)
        || (plain && premium)
        || (tenant && premium)
        || (team && premium)
        || (workflow && (premium || (is_batch && expensive)))
        || (shed && (block_premium && premium))
        || (shed && (low_latency && slow))
        || (gate && late))
      ≡ (((is_batch || plain || tenant || team || workflow || (shed && block_premium)) && premium)
          || ((workflow && is_batch) && expensive)
          || ((shed && low_latency) && slow)
          || (gate && late))
all_reasons true b p t m w e s k l o g a = ground arith
all_reasons false b p t m w e s k l o g a = ground arith

module _ {F : Type 0} ⦃fl : Float F⦄ (config : PolicyEngineConfig F) (ctx : RuleContext F) where
  open fl use {ratio, fle}

  -- Some provider of the name passes the test.
  abbrev pub named : Text → (ProviderInfo F → Bool) → List (ProviderInfo F) → Bool
  named n test = any_by (λ p. test p && (p.name == n))

  -- When a low-priority request meets a brownout.
  abbrev pub degraded_request : Bool
  degraded_request =
      elim ctx.brownout_status [ some bs ↦ bs.is_degraded | none ↦ false ]
      && not (intent_beq ctx.intent interactive || intent_beq ctx.intent code)

  abbrev pub simple_prompt : Bool
  simple_prompt = not (fle config.complexity_threshold_premium ctx.complexity.score)

  abbrev pub workflow_pressed : Bool
  workflow_pressed =
      is_given ctx.workflow_id
      && is_some (
          pressure ctx.workflow_budget_usd ctx.workflow_spent_usd
            config.workflow_budget_utilization_downgrade)

  abbrev pub tenant_pressed : Bool
  tenant_pressed =
      is_some
        (pressure ctx.tenant_budget_usd ctx.tenant_spent_usd config.budget_utilization_downgrade)

  abbrev pub team_over_budget : Bool
  team_over_budget =
      is_some
        (pressure ctx.team_budget_usd ctx.team_spent_usd config.team_budget_utilization_downgrade)

  abbrev pub team_over_cap : Bool
  team_over_cap = is_some (
      pressure ctx.team_premium_cap_usd ctx.team_premium_spend_usd
        config.team_premium_cap_utilization)

  abbrev pub team_pressed : Bool
  team_pressed = is_given ctx.team_id && (team_over_budget || team_over_cap)

  abbrev pub gate_applies : Bool
  gate_applies =
      config.apply_interactive_latency_gate && intent_beq ctx.intent interactive && simple_prompt

  -- Why premium providers are taken from the request.
  abbrev pub premium_barred : Bool
  premium_barred =
      intent_beq ctx.intent batch
      || (not (intent_beq ctx.intent reasoning) && simple_prompt)
      || tenant_pressed
      || team_pressed
      || workflow_pressed
      || (degraded_request && ctx.brownout_block_premium)

  abbrev pub expensive : ProviderInfo F → Bool
  expensive p = flt (ratio 5 1000) p.cost_per_1k_tokens

  abbrev pub gated : ProviderInfo F → Bool
  gated p = flt (of_ℕ config.interactive_max_latency_ms) p.typical_latency_ms

  abbrev pub slower_than : Option ℕ → ProviderInfo F → Bool
  slower_than none p = false
  slower_than (some max_ms) p = flt (of_ℕ max_ms) p.typical_latency_ms

  -- What must be blocked: premium providers while they are barred, expensive ones of a batch request
  -- whose workflow is pressed, and slow ones in a brownout or behind the latency gate.
  abbrev pub must_block : ProviderInfo F → Bool
  must_block p =
      (premium_barred && is_premium config ctx p)
      || ((workflow_pressed && intent_beq ctx.intent batch) && expensive p)
      || ((degraded_request && ctx.brownout_prefer_low_latency)
          && slower_than ctx.brownout_max_latency_ms p)
      || (gate_applies && gated p)

  pub named-or :
      (n : Text) (a b : ProviderInfo F → Bool) (ps : List (ProviderInfo F))
      → named n (λ p. a p || b p) ps ≡ (named n a ps || named n b ps)
  named-or n a b [] = refl
  named-or n a b (p ∷ ps) = ground (arith, named-or n a b ps)

  pub named-and :
      (n : Text) (c : Bool) (a : ProviderInfo F → Bool) (ps : List (ProviderInfo F))
      → named n (λ p. c && a p) ps ≡ (c && named n a ps)
  named-and n c a [] = ground arith
  named-and n c a (p ∷ ps) = ground (arith, named-and n c a ps)

  pub named-or_4 :
      (n : Text) (u v w x : Bool) (a b c d : ProviderInfo F → Bool) (ps : List (ProviderInfo F))
      → named n (λ p. (u && a p) || (v && b p) || (w && c p) || (x && d p)) ps
        ≡ ((u && named n a ps) || (v && named n b ps) || (w && named n c ps) || (x && named n d ps))
  named-or_4 n u v w x a b c d ps =
      let a' = λ (p : ProviderInfo F). u && a p in
      let b' = λ (p : ProviderInfo F). v && b p in
      let c' = λ (p : ProviderInfo F). w && c p in
      let d' = λ (p : ProviderInfo F). x && d p in
      let e1 = named-or n (λ p. a' p || b' p || c' p) d' ps in
      let e2 = named-or n (λ p. a' p || b' p) c' ps in
      let e3 = named-or n a' b' ps in
      e1
      ∙ rw (e2, e3, named-and n u a ps, named-and n v b ps, named-and n w c ps, named-and n x d ps)
          refl

  pub named-costs_too_much :
      (n : Text) (ps : List (ProviderInfo F))
      → named n (costs_too_much config ctx) ps ≡ (
          named n (is_premium config ctx) ps
          || (intent_beq ctx.intent batch && named n expensive ps))
  named-costs_too_much n ps =
      named-or n (is_premium config ctx) (λ p. intent_beq ctx.intent batch && expensive p) ps
      ∙ ap (λ b. named n (is_premium config ctx) ps || b)
          (named-and n (intent_beq ctx.intent batch) expensive ps)

  pub named-sheds_slow :
      (n : Text) (ps : List (ProviderInfo F))
      → named n (sheds_slow config ctx) ps
        ≡ (ctx.brownout_prefer_low_latency && named n (slower_than ctx.brownout_max_latency_ms) ps)
  named-sheds_slow n [] = ground arith
  named-sheds_slow n (p ∷ ps) = ground (arith, named-sheds_slow n ps)

  pub named-must_block :
      (n : Text) (ps : List (ProviderInfo F))
      → named n must_block ps ≡ (
          (premium_barred && named n (is_premium config ctx) ps)
          || ((workflow_pressed && intent_beq ctx.intent batch) && named n expensive ps)
          || ((degraded_request && ctx.brownout_prefer_low_latency)
              && named n (slower_than ctx.brownout_max_latency_ms) ps)
          || (gate_applies && named n gated ps))
  named-must_block n ps =
      named-or_4 n premium_barred (workflow_pressed && intent_beq ctx.intent batch)
        (degraded_request && ctx.brownout_prefer_low_latency) gate_applies (is_premium config ctx)
        expensive (slower_than ctx.brownout_max_latency_ms) gated ps

  pub named-sheds_premium :
      (n : Text) (ps : List (ProviderInfo F))
      → named n (sheds_premium config ctx) ps
        ≡ (ctx.brownout_block_premium && named n (is_premium config ctx) ps)
  named-sheds_premium n [] = ground arith
  named-sheds_premium n (p ∷ ps) = ground (arith, named-sheds_premium n ps)
