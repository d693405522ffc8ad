-- ===== src/Router/Dispatch.antt =====
-- The way of a request in intelliroute/router/main.py up to the attempts: `complete` with its
-- admission, `_prepare_routing`, and `_execute_completion` before its loop, which is in
-- Router/Completion. The sleep that delays a request of low priority in a brownout is left out. The health snapshot, the budgets, the complexity of the prompt, the day and the
-- clock's readings are arguments.
pub mod Refusals
pub mod Example
mod Tests
use intelli_route_team.Common.{
  ℕ, Bool, true, false, not, ◌&&◌, Option, none, some, List, [], ◌∷◌, map, Text, text_eq, ltb,
  if◌then◌else◌,
}
use intelli_route_team.Common.Dict.{Dict, lookup, insert}
use intelli_route_team.Common.Float.{Float}
use intelli_route_team.Common.Strings.{text, strip}
use intelli_route_team.HealthMonitor.Monitor.{ProviderHealth}
use intelli_route_team.Router.Provider.{
  Intent, interactive, reasoning, batch, code, ProviderInfo, ScoredProvider, CompletionRequest,
}
use intelli_route_team.Router.Queue.{
  Priority, high, medium, low, is_low, RequestQueue, Answer, queued, refused, Refusal, total_depth,
  try_enqueue,
}
use intelli_route_team.Router.Brownout.{
  Reason, unset, disabled, healthy, by_queue_depth, by_latency_p95, by_error_rate, by_timeout_rate,
  BrownoutManager, BrownoutSnapshot, new_manager, evaluate, snapshot, record_request_result,
}
use intelli_route_team.Router.Registry.{ProviderRegistry, all_active}
use intelli_route_team.Router.PolicyEngine.{
  PolicyEngineConfig, ComplexityResult, BrownoutStatus, RuleContext,
}
use intelli_route_team.Router.PolicyEngine.Evaluate
use intelli_route_team.Router.Policy.{RoutingPolicy}
use intelli_route_team.Router.Classify.{classify}
use intelli_route_team.Router.Quota.{QuotaSettings, DailyQuotaTracker, apply_daily_quota}
use intelli_route_team.Router.Modes.{Modes, get_routing_mode, rank_candidates}

-- `INTENT_PRIORITY`
abbrev pub priority_of : Intent → Priority
priority_of interactive = high
priority_of code = high
priority_of reasoning = medium
priority_of batch = low

-- What `_fetch_budget_context` returns.
pub record BudgetAnswers (F : Type 0) : Type 0 where
  pub tenant_budget_usd : Option F
  pub tenant_spent_usd : F
  pub team_budget_usd : Option F
  pub team_spent_usd : F
  pub workflow_budget_usd : Option F
  pub workflow_spent_usd : F
  pub team_premium_cap_usd : Option F
  pub team_premium_spend_usd : F

-- The module's globals that a request meets before its attempts.
pub record RouterState (F : Type 0) : Type 0 where
  pub registry : ProviderRegistry F
  pub request_queue : RequestQueue (CompletionRequest F)
  pub brownout_manager : BrownoutManager F
  pub tenant_brownout : Dict Text (BrownoutManager F)
  pub modes : Modes
  pub quotas : DailyQuotaTracker

-- What does not change: the configuration of the parts.
pub record RouterConfig (F : Type 0) : Type 0 where
  pub policy_engine : PolicyEngineConfig F
  pub policy : RoutingPolicy F
  pub quota_settings : QuotaSettings F

-- What the other services and the clock answer to a request.
pub record Answers (F : Type 0) : Type 0 where
  pub health : Dict Text (ProviderHealth F)
  pub budgets : BudgetAnswers F
  pub complexity : ComplexityResult F
  pub now : F
  pub day : Text
  pub elapsed_ms : F

-- The end of a request before its attempts, or the providers to attempt.
pub data Dispatch (F : Type 0) : Type 0 where
  no_providers_registered : Dispatch F
  quota_exhausted : Dispatch F
  attempts : CompletionRequest F → List (ScoredProvider F) → Dispatch F

-- What `complete` does with a request.
pub data Admission : Type 0 where
  low_priority_deferred : Admission
  execute_now : Admission
  wait_in_queue : Admission
  queue_full : Refusal → Admission

-- `reason` as a text
abbrev reason_text : Reason → Text
reason_text unset = []
reason_text disabled = text "disabled"
reason_text healthy = text "healthy"
reason_text by_queue_depth = text "queue_depth"
reason_text by_latency_p95 = text "latency_p95"
reason_text by_error_rate = text "error_rate"
reason_text by_timeout_rate = text "timeout_rate"

abbrev or_anonymous : Text → Text
or_anonymous [] = text "__anonymous__"
or_anonymous (c ∷ t) = c ∷ t

-- `_tenant_key`
unfoldable pub tenant_key : Text → Text
tenant_key tenant_id = or_anonymous (strip tenant_id)

abbrev pub is_reasoning_or_batch : Intent → Bool
is_reasoning_or_batch reasoning = true
is_reasoning_or_batch batch = true
is_reasoning_or_batch _ = false

module _ {F : Type 0} ⦃fl : Float F⦄ where
  abbrev or_new : BrownoutManager F → Option (BrownoutManager F) → BrownoutManager F
  or_new shared none = new_manager shared.config
  or_new shared (some m) = m

  -- `_tenant_brownout_manager`; the callers store it.
  unfoldable pub tenant_manager : Text → RouterState F → BrownoutManager F
  tenant_manager tenant_id s =
      or_new s.brownout_manager (lookup (tenant_key tenant_id) s.tenant_brownout)

  abbrev put_tenant : Text → BrownoutManager F → RouterState F → RouterState F
  put_tenant tenant_id m s = record s {
    tenant_brownout = insert (tenant_key tenant_id) m s.tenant_brownout;
  }

  -- `_record_brownout_result`
  unfoldable pub record_brownout_result : Text → F → Bool → Bool → RouterState F → RouterState F
  record_brownout_result tenant_id latency_ms success timed_out s =
      let shared = record_request_result latency_ms success timed_out s.brownout_manager in
      let mine = record_request_result latency_ms success timed_out (tenant_manager tenant_id s) in
      put_tenant tenant_id mine (record s { brownout_manager = shared })

  -- The evaluations of `_prepare_routing`: the tenant's verdict, if it is degraded, or the global
  -- one.
  unfoldable pub evaluate_brownout : Text → F → RouterState F → RouterState F × BrownoutSnapshot F
  evaluate_brownout tenant_id now s =
      let depth = total_depth s.request_queue in
      let (shared, global_bs, _) = evaluate depth now s.brownout_manager in
      let (mine, tenant_bs, _) = evaluate depth now (tenant_manager tenant_id s) in
      (
        put_tenant tenant_id mine (record s { brownout_manager = shared }),
        if tenant_bs.is_degraded then tenant_bs else global_bs,
      )

  -- The call of the policy engine.
  abbrev pub rule_context :
      Answers F → CompletionRequest F → BrownoutSnapshot F → RouterState F → RuleContext F
  rule_context answers req bs s = record {
    providers = all_active answers.now s.registry;
    intent = classify req;
    complexity = answers.complexity;
    tenant_budget_usd = answers.budgets.tenant_budget_usd;
    tenant_spent_usd = answers.budgets.tenant_spent_usd;
    team_id = req.team_id;
    workflow_id = req.workflow_id;
    team_budget_usd = answers.budgets.team_budget_usd;
    team_spent_usd = answers.budgets.team_spent_usd;
    workflow_budget_usd = answers.budgets.workflow_budget_usd;
    workflow_spent_usd = answers.budgets.workflow_spent_usd;
    team_premium_cap_usd = answers.budgets.team_premium_cap_usd;
    team_premium_spend_usd = answers.budgets.team_premium_spend_usd;
    brownout_status =
        some (record { is_degraded = bs.is_degraded; reason = some (reason_text bs.reason) });
    brownout_max_latency_ms = some s.brownout_manager.config.low_latency_max_ms;
    brownout_block_premium = s.brownout_manager.config.block_premium_for_medium_and_low;
    brownout_prefer_low_latency = s.brownout_manager.config.prefer_low_latency_for_medium_and_low;
  }

  -- `_prepare_routing`: the new state, the verdict and the candidates
  unfoldable pub prepare_routing :
      RouterConfig F
      → Answers F
      → CompletionRequest F
      → RouterState F
      → RouterState F × BrownoutSnapshot F × List (ProviderInfo F)
  prepare_routing config answers req s =
      let (s', bs) = evaluate_brownout req.tenant_id answers.now s in
      (s', bs, (Evaluate.evaluate config.policy_engine (rule_context answers req bs s')).0)

  -- The clamp of a degraded low-priority request.
  unfoldable pub clamp_tokens :
      BrownoutSnapshot F → CompletionRequest F → BrownoutManager F → CompletionRequest F
  clamp_tokens bs req m =
      if bs.is_degraded
        && m.config.reduce_max_tokens_for_medium_and_low
        && is_reasoning_or_batch (classify req)
        && ltb m.config.degraded_max_tokens req.max_tokens
      then record req { max_tokens = m.config.degraded_max_tokens }
      else req

  -- A ranking with nobody on it ends the request.
  abbrev pub after_ranking :
      CompletionRequest F
      → F
      → List (ScoredProvider F)
      → List (ScoredProvider F)
      → RouterState F
      → RouterState F × Dispatch F
  after_ranking req elapsed [] left s =
      (record_brownout_result req.tenant_id elapsed false false s, no_providers_registered)
  after_ranking req elapsed (r ∷ ranked) [] s =
      (record_brownout_result req.tenant_id elapsed false false s, quota_exhausted)
  after_ranking req elapsed (r ∷ ranked) (l ∷ left) s = (s, attempts req (l ∷ left))

  -- `_execute_completion` up to its loop
  unfoldable pub begin_completion :
      RouterConfig F → Answers F → CompletionRequest F → RouterState F → RouterState F × Dispatch F
  begin_completion config answers req s =
      let (s', bs, candidates) = prepare_routing config answers req s in
      let effective = clamp_tokens bs req s'.brownout_manager in
      let (ranked, modes) =
        rank_candidates (get_routing_mode s'.modes) config.policy candidates answers.health
          (classify req) effective s'.modes in
      let left = apply_daily_quota config.quota_settings answers.day s'.quotas ranked in
      after_ranking effective answers.elapsed_ms ranked left (record s' { modes = modes })

  abbrev admitted :
      RequestQueue (CompletionRequest F) × Answer (CompletionRequest F)
      → RouterState F
      → RouterState F × Admission
  admitted (q, queued x) s = (record s { request_queue = q }, wait_in_queue)
  admitted (q, refused r) s = (record s { request_queue = q }, queue_full r)

  -- `complete` up to the execution or the wait; the time is that of the queue's clock.
  unfoldable pub admit : Text → ℕ → CompletionRequest F → RouterState F → RouterState F × Admission
  admit request_id now req s =
      let priority = priority_of (classify req) in
      let bs = snapshot s.brownout_manager in
      let tried = try_enqueue request_id req priority now true s.request_queue in
      if bs.is_degraded
        && is_low priority
        && s.brownout_manager.config.drop_low_priority_when_degraded
      then (s, low_priority_deferred)
      else elim priority [
        | high ↦ (s, execute_now)
        | medium ↦ admitted tried s
        | low ↦ admitted tried s
      ]
