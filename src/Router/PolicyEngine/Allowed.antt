-- ===== src/Router/PolicyEngine/Allowed.antt =====
-- Which providers `evaluate` leaves to the ranking.
use intelli_route_team.Common.{
  ◌≡◌, ap, refl, inl, inr, Bool, true, false, not, ◌&&◌, List, [], ◌∷◌, arith, any_by, filter_by,
  filter_by-cong, filter_by-none, any_by-filter_by, if◌then◌else◌, Bool-cases, List-cases,
}
use intelli_route_team.Common.Float.{Float}
use intelli_route_team.Router.Provider.{ProviderInfo}
use intelli_route_team.Router.PolicyEngine.{PolicyEngineConfig, RuleContext, member}
use intelli_route_team.Router.PolicyEngine.Evaluate.{is_nil, evaluate}
use intelli_route_team.Router.PolicyEngine.Rules.{run_rules}
use intelli_route_team.Router.PolicyEngine.Reasons.{named, must_block}
use intelli_route_team.Router.PolicyEngine.Blocks.{run_rules_lem}

any_by-is_nil :
    {F : Type 0} ⦃fl : Float F⦄ (p : ProviderInfo F → Bool) (ps : List (ProviderInfo F))
    → is_nil ps ≡ true
    → any_by p ps ≡ false
any_by-is_nil p [] h = refl
any_by-is_nil p (q ∷ ps) h = ground (arith, h)

module _ {F : Type 0} ⦃fl : Float F⦄ (config : PolicyEngineConfig F) (ctx : RuleContext F) where
  -- No provider of the name must be blocked.
  abbrev pub is_kept : ProviderInfo F → Bool
  is_kept p = not (named config ctx p.name (must_block config ctx) ctx.providers)

  -- Whether the rules leave a provider.
  abbrev pub rules_leave_one : Bool
  rules_leave_one = any_by is_kept ctx.providers

  kept_by_rules :
      filter_by (λ p. not (member p.name (run_rules config ctx).blocked)) ctx.providers
      ≡ filter_by is_kept ctx.providers
  kept_by_rules =
      filter_by-cong (λ p. not (member p.name (run_rules config ctx).blocked)) is_kept ctx.providers
        (λ p. ap not (run_rules_lem config ctx p.name))

  -- The policy engine leaves the providers of whose name none must be blocked, in their order. It
  -- leaves all and reports that it failed open if there would be none of the given ones left, and it
  -- leaves all without that report if it is switched off or none is given.
  pub evaluate-must_block :
      ((evaluate config ctx).0 ≡ (
        if config.enabled && rules_leave_one
        then filter_by is_kept ctx.providers
        else ctx.providers))
      × ((evaluate config ctx).1.fail_open
          ≡ (config.enabled && not (is_nil ctx.providers) && not rules_leave_one))
  unfolding evaluate
  evaluate-must_block = elim (List-cases (filter_by is_kept ctx.providers)) [
    | inl none ↦
        let e = any_by-filter_by is_kept ctx.providers none in
        rw (kept_by_rules, none, e) (ground arith)
    | inr (x, xs, some_left) ↦ elim (Bool-cases rules_leave_one) [
      | inl e ↦
          rw (kept_by_rules, some_left, e) (ground (arith, any_by-is_nil is_kept ctx.providers))
      | inr e ↦ absurd (ground (arith, filter_by-none is_kept ctx.providers e, some_left))
    ]
  ]
