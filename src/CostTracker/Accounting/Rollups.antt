-- ===== src/CostTracker/Accounting/Rollups.antt =====
-- The rollups are sums over the events recorded since the last reset.
use intelli_route_team.Common.{
  ℕ, ◌≡◌, refl, Option, none, some, List, [], ◌∷◌, ◌++◌, arith, Text, text_eq, text_beq_iff, ◌==◌,
  filter_by, foldl_by, foldl_by-append, length, length-append, if◌then◌else◌, last_n, push_bounded,
  push_bounded-last_n,
}
use intelli_route_team.Common.Dict.{Dict, lookup-insert}
use intelli_route_team.Common.Float.{Float, nought}
use intelli_route_team.Common.Sort.{sum_by, sum_by-append}
use intelli_route_team.CostTracker.Accounting.{
  CostEvent, CostAccountant, tokens_of, new_accountant, rollup_of, charge, alert_over, charge_event,
  record_event, set_budget, set_team_budget, set_workflow_budget, set_team_premium_cap, reset, Call,
  event, budget, team_budget, workflow_budget, premium_cap, clear, perform, perform_all, journal,
}

module _ {F : Type 0} ⦃fl : Float F⦄ where
  open fl use {add}

  -- The cost of the events, added up from nought in their order.
  abbrev pub cost : List (CostEvent F) → F
  cost = foldl_by (λ c e. add c e.estimated_cost_usd) nought

  abbrev pub events_for : Text → List (CostEvent F) → List (CostEvent F)
  events_for tenant = filter_by (λ e. e.tenant_id == tenant)

  -- The accountant has the sums of the events for the tenant, and the newest events in its log.
  pub record IsTally (tenant : Text) (es : List (CostEvent F)) (a : CostAccountant F) : Type 0 where
    pub requests : (rollup_of tenant a).total_requests ≡ length (events_for tenant es)
    pub tokens : (rollup_of tenant a).total_tokens ≡ sum_by tokens_of (events_for tenant es)
    pub spent : (rollup_of tenant a).total_cost_usd ≡ cost (events_for tenant es)
    pub logged : a.event_log ≡ last_n a.max_history es

  pub rollup_of-charge_event :
      (tenant : Text) (e : CostEvent F) (a : CostAccountant F)
      → rollup_of tenant (charge_event e a)
        ≡ (if e.tenant_id == tenant then charge e (rollup_of tenant a) else rollup_of tenant a)
  unfolding charge_event
  rollup_of-charge_event tenant e a = ground (
    arith,
    lookup-insert e.tenant_id tenant (charge e (rollup_of e.tenant_id a)) a.rollups,
    text_beq_iff e.tenant_id tenant,
  )

  events_for-append :
      (tenant : Text) (es : List (CostEvent F)) (e : CostEvent F)
      → events_for tenant (es ++ (e ∷ []))
        ≡ (if e.tenant_id == tenant then events_for tenant es ++ (e ∷ []) else events_for tenant es)
  events_for-append tenant [] e = ground arith
  events_for-append tenant (x ∷ es) e = ground (arith, events_for-append tenant es e)

  log-charge_event :
      (e : CostEvent F) (a : CostAccountant F)
      → ((charge_event e a).event_log ≡ push_bounded a.max_history a.event_log e)
        × ((charge_event e a).max_history ≡ a.max_history)
  unfolding charge_event
  log-charge_event e a = (refl, refl)

  charge_event-IsTally :
      (tenant : Text) (es : List (CostEvent F)) (e : CostEvent F) (a : CostAccountant F)
      → IsTally tenant es a
      → IsTally tenant (es ++ (e ∷ [])) (charge_event e a)
  charge_event-IsTally tenant es e a v =
      let for = events_for tenant es in
      ground (
        arith,
        v.requests,
        v.tokens,
        v.spent,
        v.logged,
        rollup_of-charge_event tenant e a,
        events_for-append tenant es e,
        log-charge_event e a,
        length-append for (e ∷ []),
        sum_by-append tokens_of for (e ∷ []),
        foldl_by-append (λ c x. add c x.estimated_cost_usd) nought for (e ∷ []),
        push_bounded-last_n a.max_history es e,
      )

  alert_over-IsTally :
      (tenant t : Text) (x : F) (b : Option F) (es : List (CostEvent F)) (a : CostAccountant F)
      → IsTally tenant es a
      → IsTally tenant es (alert_over t x b a)
  unfolding alert_over
  alert_over-IsTally tenant t x none es a v = v
  alert_over-IsTally tenant t x (some b) es a v = ground arith

  perform-IsTally :
      (tenant : Text) (c : Call F) (es : List (CostEvent F)) (a : CostAccountant F)
      → IsTally tenant es a
      → IsTally tenant (journal es (c ∷ [])) (perform c a)
  unfolding perform journal record_event set_budget set_team_budget set_workflow_budget
      set_team_premium_cap reset
  perform-IsTally tenant (event e) es a v =
      alert_over-IsTally tenant e.tenant_id _ _ (es ++ (e ∷ [])) (charge_event e a)
        (charge_event-IsTally tenant es e a v)
  perform-IsTally tenant (budget t x) es a v = ground arith
  perform-IsTally tenant (team_budget t x) es a v = ground arith
  perform-IsTally tenant (workflow_budget t x) es a v = ground arith
  perform-IsTally tenant (premium_cap t x) es a v = ground arith
  perform-IsTally tenant (clear c) es a v = ground arith

  perform_all-IsTally :
      (tenant : Text) (cs : List (Call F)) (es : List (CostEvent F)) (a : CostAccountant F)
      → IsTally tenant es a
      → IsTally tenant (journal es cs) (perform_all cs a)
  unfolding perform_all journal
  perform_all-IsTally tenant [] es a v = v
  perform_all-IsTally tenant (event e ∷ cs) es a v =
      perform_all-IsTally tenant cs (es ++ (e ∷ [])) (perform (event e) a)
        (perform-IsTally tenant (event e) es a v)
  perform_all-IsTally tenant (clear c ∷ cs) es a v =
      perform_all-IsTally tenant cs [] (perform (clear c) a)
        (perform-IsTally tenant (clear c) es a v)
  perform_all-IsTally tenant (budget t x ∷ cs) es a v =
      perform_all-IsTally tenant cs es (perform (budget t x) a)
        (perform-IsTally tenant (budget t x) es a v)
  perform_all-IsTally tenant (team_budget t x ∷ cs) es a v =
      perform_all-IsTally tenant cs es (perform (team_budget t x) a)
        (perform-IsTally tenant (team_budget t x) es a v)
  perform_all-IsTally tenant (workflow_budget t x ∷ cs) es a v =
      perform_all-IsTally tenant cs es (perform (workflow_budget t x) a)
        (perform-IsTally tenant (workflow_budget t x) es a v)
  perform_all-IsTally tenant (premium_cap t x ∷ cs) es a v =
      perform_all-IsTally tenant cs es (perform (premium_cap t x) a)
        (perform-IsTally tenant (premium_cap t x) es a v)

  -- After any calls to a new accountant, with `es` the events recorded since the last reset, the
  -- rollup of every tenant has the number of its events in `es`, the sum of their tokens and the
  -- sum of their costs, added up in order, and the log has the newest `max_history` of `es`.
  pub rollups_are_sums :
      (tenant : Text) (cs : List (Call F)) (budgets : Dict Text F) (max_history : ℕ)
      → IsTally tenant (journal [] cs) (perform_all cs (new_accountant budgets max_history))
  rollups_are_sums tenant cs budgets max_history =
      perform_all-IsTally tenant cs [] (new_accountant budgets max_history)
        (record { requests = refl; tokens = refl; spent = refl; logged = ground arith })
