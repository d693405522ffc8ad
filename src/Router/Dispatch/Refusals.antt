-- ===== src/Router/Dispatch/Refusals.antt =====
-- When a request ends before its attempts.
use intelli_route_team.Common.{
  ◌≡◌, ◌↔◌, ◌∙◌, sym, ap, refl, inl, inr, ◌&&◌, List, [], ◌∷◌, arith, Text, text_eq,
  any_by-filter_by, all_by, Bool-cases,
}
use intelli_route_team.Common.Dict.{Dict}
use intelli_route_team.Common.Float.{Float}
use intelli_route_team.Common.Sort.{sum_by}
use intelli_route_team.HealthMonitor.Monitor.{ProviderHealth}
use intelli_route_team.Router.Provider.{Intent, ProviderInfo, ScoredProvider, CompletionRequest}
use intelli_route_team.Router.Registry.{all_active}
use intelli_route_team.Router.Policy.{RoutingPolicy, is_open_in}
use intelli_route_team.Router.Policy.Order.{eligible, none_open}
use intelli_route_team.Router.PolicyEngine.{PolicyEngineConfig, RuleContext}
use intelli_route_team.Router.PolicyEngine.Evaluate.{evaluate}
use intelli_route_team.Router.PolicyEngine.Allowed.{is_kept, rules_leave_one, evaluate-must_block}
use intelli_route_team.Router.Classify.{classify}
use intelli_route_team.Router.Quota.{apply_daily_quota}
use intelli_route_team.Router.Modes.{Modes, get_routing_mode, rank_candidates}
use intelli_route_team.Router.Modes.Candidates.{sum_by-rank_candidates}
use intelli_route_team.Router.Dispatch.{
  RouterConfig, RouterState, Answers, no_providers_registered, rule_context, evaluate_brownout,
  prepare_routing, clamp_tokens, after_ranking, begin_completion,
}

-- A list has no item exactly when the number of its items is 0.
count-nil : {A : Type 0} (xs : List A) → (sum_by (λ x. 1) xs ≡ 0) ↔ (xs ≡ [])
count-nil [] = (λ h. refl, λ h. refl)
count-nil (x ∷ xs) = (λ h. absurd (omega arith), λ h. absurd (ground (arith, h)))

module _ {F : Type 0} ⦃fl : Float F⦄ where
  eligible→nil :
      (health : Dict Text (ProviderHealth F)) (ps : List (ProviderInfo F))
      → eligible health ps ≡ []
      → ps ≡ []
  eligible→nil health ps h = elim (Bool-cases (all_by (λ p. is_open_in health p.name) ps)) [
    | inl e ↦ rw e at h
    | inr e ↦ absurd (ground (arith, e, none_open health ps (rw e at h)))
  ]

  eligible-nil :
      (health : Dict Text (ProviderHealth F)) (ps : List (ProviderInfo F))
      → (eligible health ps ≡ []) ↔ (ps ≡ [])
  eligible-nil health ps = (eligible→nil health ps, λ e. rw e refl)

  -- The policy engine leaves nobody only of nobody.
  evaluate→nil :
      (config : PolicyEngineConfig F) (ctx : RuleContext F)
      → (evaluate config ctx).0 ≡ []
      → ctx.providers ≡ []
  evaluate→nil config ctx h = elim (Bool-cases (config.enabled && rules_leave_one config ctx)) [
    | inl e ↦
        let kept = sym (evaluate-must_block config ctx).0 ∙ h in
        absurd
          (ground (arith, e, any_by-filter_by (is_kept config ctx) ctx.providers (rw e at kept)))
    | inr e ↦ let all = sym (evaluate-must_block config ctx).0 ∙ h in rw e at all
  ]

  nil→evaluate :
      (config : PolicyEngineConfig F) (ctx : RuleContext F)
      → ctx.providers ≡ []
      → (evaluate config ctx).0 ≡ []
  nil→evaluate config ctx h = (evaluate-must_block config ctx).0 ∙ ground (arith, h)

  rank_candidates-nil :
      (mode : Text) (policy : RoutingPolicy F) (candidates : List (ProviderInfo F))
      (health : Dict Text (ProviderHealth F)) (intent : Intent) (req : CompletionRequest F)
      (s : Modes)
      → ((rank_candidates mode policy candidates health intent req s).0 ≡ []) ↔ (candidates ≡ [])
  rank_candidates-nil mode policy candidates health intent req s = ground (
    arith,
    sum_by-rank_candidates (λ p. 1) mode policy candidates health intent req s,
    count-nil (rank_candidates mode policy candidates health intent req s).0,
    count-nil candidates,
    count-nil (eligible health candidates),
    eligible-nil health candidates,
  )

  registry-evaluate_brownout :
      (tenant_id : Text) (now : F) (s : RouterState F)
      → (evaluate_brownout tenant_id now s).0.registry ≡ s.registry
  unfolding evaluate_brownout
  registry-evaluate_brownout tenant_id now s = refl

  prepare_routing-nil :
      (config : RouterConfig F) (answers : Answers F) (req : CompletionRequest F)
      (s : RouterState F)
      → ((prepare_routing config answers req s).2 ≡ []) ↔ (all_active answers.now s.registry ≡ [])
  unfolding prepare_routing
  prepare_routing-nil config answers req s =
      let (s', bs) = evaluate_brownout req.tenant_id answers.now s in
      let ctx = rule_context answers req bs s' in
      let e : ctx.providers ≡ all_active answers.now s.registry =
        ap (all_active answers.now) (registry-evaluate_brownout req.tenant_id answers.now s) in
      (
        λ h. sym e ∙ evaluate→nil config.policy_engine ctx h,
        λ h. nil→evaluate config.policy_engine ctx (e ∙ h),
      )

  after_ranking-nil :
      (req : CompletionRequest F) (elapsed : F) (ranked left : List (ScoredProvider F))
      (s : RouterState F)
      → ((after_ranking req elapsed ranked left s).1 ≡ no_providers_registered) ↔ (ranked ≡ [])
  after_ranking-nil req elapsed [] left s = (λ h. refl, λ h. refl)
  after_ranking-nil req elapsed (r ∷ ranked) [] s =
      (λ h. absurd (ground (arith, h)), λ h. absurd (ground (arith, h)))
  after_ranking-nil req elapsed (r ∷ ranked) (l ∷ left) s =
      (λ h. absurd (ground (arith, h)), λ h. absurd (ground (arith, h)))

  -- A request ends for want of providers exactly when no registered provider has a lease that holds:
  -- never because of the policy engine, of a brownout or of open circuits.
  pub no_providers_iff :
      (config : RouterConfig F) (answers : Answers F) (req : CompletionRequest F)
      (s : RouterState F)
      → ((begin_completion config answers req s).1 ≡ no_providers_registered)
        ↔ (all_active answers.now s.registry ≡ [])
  unfolding begin_completion
  no_providers_iff config answers req s =
      let (s', bs, candidates) = prepare_routing config answers req s in
      let effective = clamp_tokens bs req s'.brownout_manager in
      let (ranked, modes) =
        rank_candidates (get_routing_mode s'.modes) config.policy candidates answers.health
          (classify req) effective s'.modes in
      let left = apply_daily_quota config.quota_settings answers.day s'.quotas ranked in
      let a =
        after_ranking-nil effective answers.elapsed_ms ranked left (record s' { modes = modes }) in
      let b =
        rank_candidates-nil (get_routing_mode s'.modes) config.policy candidates answers.health
          (classify req) effective s'.modes in
      let c = prepare_routing-nil config answers req s in
      (λ h. c.0 (b.0 (a.0 h)), λ h. a.1 (b.1 (c.1 h)))
