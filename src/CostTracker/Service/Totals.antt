-- ===== src/CostTracker/Service/Totals.antt =====
-- What /stats counts.
use intelli_route_team.Common.{
  ℕ, ◌+◌, ◌≡◌, refl, ap, ◌∙◌, Bool, true, false, Option, none, some, List, [], ◌∷◌, ◌++◌, Text,
  text_eq, length, length-append, count_by, arith, beq_refl, Option-cases, inl, inr,
}
use intelli_route_team.Common.Dict.{Dict, lookup, insert}
use intelli_route_team.Common.Float.{Float}
use intelli_route_team.CostTracker.Accounting.{
  CostEvent, CostAccountant, TenantRollup, rollup_of, charge, alert_over, charge_event,
  record_event, set_budget, set_team_budget, set_workflow_budget, set_team_premium_cap, reset, Call,
  event, budget, team_budget, workflow_budget, premium_cap, clear, perform, journal,
}
use intelli_route_team.CostTracker.Accounting.Rollups.{rollup_of-charge_event}
use intelli_route_team.CostTracker.Service.{
  CostService, requests_in, new_service, serve, serve_all, cost_stats,
}

abbrev pub is_event : {F : Type 0} → Call F → Bool
is_event (event e) = true
is_event (budget t x) = false
is_event (team_budget t x) = false
is_event (workflow_budget t x) = false
is_event (premium_cap t x) = false
is_event (clear c) = false

module _ {F : Type 0} where
  abbrev had : Option (TenantRollup F) → ℕ
  had none = 0
  had (some r) = r.total_requests

  requests_in-insert :
      (k : Text) (v : TenantRollup F) (d : Dict Text (TenantRollup F))
      → requests_in (insert k v d) + had (lookup k d) ≡ requests_in d + v.total_requests
  requests_in-insert k v [] = omega arith
  requests_in-insert k v ((j, w) ∷ d) = ground (arith, requests_in-insert k v d)

module _ {F : Type 0} ⦃fl : Float F⦄ where
  had-rollup_of :
      (t : Text) (a : CostAccountant F) → had (lookup t a.rollups) ≡ (rollup_of t a).total_requests
  had-rollup_of t a = elim (Option-cases (lookup t a.rollups)) [
    | inl h ↦ ap had h ∙ ground (arith, h)
    | inr (r, h) ↦ ground (arith, h)
  ]

  alert_over-rollups :
      (t : Text) (spent : F) (b : Option F) (a : CostAccountant F)
      → (alert_over t spent b a).rollups ≡ a.rollups
  unfolding alert_over
  alert_over-rollups t spent none a = refl
  alert_over-rollups t spent (some x) a = ground arith

  rollup_of-alert_over :
      (u t : Text) (spent : F) (b : Option F) (a : CostAccountant F)
      → rollup_of u (alert_over t spent b a) ≡ rollup_of u a
  unfolding alert_over
  rollup_of-alert_over u t spent none a = refl
  rollup_of-alert_over u t spent (some x) a = ground arith

  pub rollup_of-record_event :
      (e : CostEvent F) (a : CostAccountant F)
      → rollup_of e.tenant_id (record_event e a) ≡ charge e (rollup_of e.tenant_id a)
  unfolding record_event
  rollup_of-record_event e a =
      let a' = charge_event e a in
      rollup_of-alert_over e.tenant_id e.tenant_id (rollup_of e.tenant_id a').total_cost_usd
        (lookup e.tenant_id a'.budgets) a'
      ∙ ground (arith, rollup_of-charge_event e.tenant_id e a, beq_refl {A = Text} e.tenant_id)

  record_event-requests :
      (e : CostEvent F) (a : CostAccountant F)
      → requests_in (record_event e a).rollups ≡ requests_in a.rollups + 1
  unfolding record_event charge_event
  record_event-requests e a =
      let a' = charge_event e a in
      ap requests_in (
        alert_over-rollups e.tenant_id (rollup_of e.tenant_id a').total_cost_usd
          (lookup e.tenant_id a'.budgets) a')
      ∙ omega (
        arith,
        requests_in-insert e.tenant_id (charge e (rollup_of e.tenant_id a)) a.rollups,
        had-rollup_of e.tenant_id a,
      )

  stats_from :
      (cs : List (Call F)) (es : List (CostEvent F)) (s : CostService F)
      → requests_in s.accountant.rollups ≡ length es
      → (requests_in (serve_all cs s).accountant.rollups ≡ length (journal es cs))
        × ((serve_all cs s).total_events ≡ s.total_events + count_by is_event cs)
  unfolding serve perform journal set_budget set_team_budget set_workflow_budget
      set_team_premium_cap reset
  stats_from [] es s h = (h, omega arith)
  stats_from (event e ∷ cs) es s h =
      let grown : requests_in (record_event e s.accountant).rollups ≡ length (es ++ (e ∷ [])) =
        omega (arith, record_event-requests e s.accountant, length-append es (e ∷ []), h) in
      let (requests, events) = stats_from cs (es ++ (e ∷ [])) (serve (event e) s) grown in
      (requests, omega (arith, events))
  stats_from (budget t x ∷ cs) es s h = stats_from cs es (serve (budget t x) s) h
  stats_from (team_budget t x ∷ cs) es s h = stats_from cs es (serve (team_budget t x) s) h
  stats_from (workflow_budget t x ∷ cs) es s h = stats_from cs es (serve (workflow_budget t x) s) h
  stats_from (premium_cap t x ∷ cs) es s h = stats_from cs es (serve (premium_cap t x) s) h
  stats_from (clear c ∷ cs) es s h = stats_from cs [] (serve (clear c) s) refl

  -- After any calls on a new service, /stats gives as the platform's requests the number of events
  -- since the last reset, and as the events received the number of all of them.
  pub cost_stats-serve_all :
      (budgets : Dict Text F) (max_history : ℕ) (cs : List (Call F))
      → let stats = cost_stats (serve_all cs (new_service budgets max_history)) in
        (stats.platform_total_requests ≡ length (journal [] cs))
        × (stats.total_events_received ≡ count_by is_event cs)
  unfolding cost_stats
  cost_stats-serve_all budgets max_history cs =
      let (requests, events) = stats_from cs [] (new_service budgets max_history) refl in
      (requests, omega (arith, events))
