-- ===== src/Router/PolicyEngine/Evaluate.antt =====
-- `evaluate` of intelliroute/router/policy_engine/evaluator.py.
use intelli_route_team.Common.{
  Bool, true, false, not, ◌||◌, none, List, [], ◌∷◌, ◌++◌, map, Text, text_eq, if◌then◌else◌,
  filter_by,
}
use intelli_route_team.Common.Float.{Float, nought}
use intelli_route_team.Common.Sort.{sort_by}
use intelli_route_team.Common.Strings.{text_ltb}
use intelli_route_team.Router.Provider.{ProviderInfo}
use intelli_route_team.Router.PolicyEngine.{
  PolicyEngineConfig, RuleContext, MatchedRule, RuleState, PolicyEvaluationResult, member,
  fail_open_restore_full_provider_set,
}
use intelli_route_team.Router.PolicyEngine.Rules.{run_rules}

module _ {F : Type 0} ⦃fl : Float F⦄ where
  abbrev names_of : List (ProviderInfo F) → List Text
  names_of = map (λ p. p.name)

  abbrev pub is_nil : List (ProviderInfo F) → Bool
  is_nil [] = true
  is_nil (p ∷ ps) = false

module _ {F : Type 0} ⦃fl : Float F⦄ (config : PolicyEngineConfig F) (ctx : RuleContext F) where
  abbrev untouched : List (ProviderInfo F) × PolicyEvaluationResult F
  untouched = (
    ctx.providers,
    record {
      complexity_score = nought;
      complexity_signals = [];
      allowed_providers = names_of ctx.providers;
      blocked_providers = [];
      matched_rules = [];
      budget_actions = [];
      downgrade_reason = none;
      fail_open = false;
    },
  )

  -- The result for the providers that the rules leave, or for all if they leave none.
  abbrev result_of :
      List (ProviderInfo F)
      → Bool
      → List MatchedRule
      → RuleState F
      → List (ProviderInfo F) × PolicyEvaluationResult F
  result_of allowed opened matched s = (
    allowed,
    record {
      complexity_score = ctx.complexity.score;
      complexity_signals = ctx.complexity.signals;
      allowed_providers = names_of allowed;
      blocked_providers = sort_by text_ltb s.blocked;
      matched_rules = matched;
      budget_actions = s.budget_actions;
      downgrade_reason = s.downgrade_reason;
      fail_open = opened;
    },
  )

  abbrev or_fail_open :
      List (ProviderInfo F) → RuleState F → List (ProviderInfo F) × PolicyEvaluationResult F
  or_fail_open [] s =
      result_of ctx.providers true (s.matched ++ (fail_open_restore_full_provider_set ∷ [])) s
  or_fail_open (p ∷ ps) s = result_of (p ∷ ps) false s.matched s

  unfoldable pub evaluate : List (ProviderInfo F) × PolicyEvaluationResult F
  evaluate =
      if not config.enabled || is_nil ctx.providers
      then untouched
      else or_fail_open
          (filter_by (λ p. not (member p.name (run_rules config ctx).blocked)) ctx.providers)
          (run_rules config ctx)
