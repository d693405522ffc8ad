-- ===== src/CostTracker/Accounting/Alerts.antt =====
-- Which tenants are alerted, and how often.
use intelli_route_team.Common.{
  ℕ, ◌+◌, ◌≡◌, refl, ap, ◌∙◌, inl, inr, Bool-cases, Bool, true, not, ◌&&◌, Option, none, some, List,
  [], ◌∷◌, ◌++◌, arith, Text, text_eq, text_beq_iff, ◌==◌, count_by, All, if◌then◌else◌,
}
use intelli_route_team.Common.Dict.{Dict, lookup}
use intelli_route_team.Common.Float.{Float, flt}
use intelli_route_team.CostTracker.Accounting.{
  Alert, CostEvent, CostAccountant, has_crossed, new_accountant, rollup_of, alert_over,
  charge_event, record_event, set_budget, set_team_budget, set_workflow_budget,
  set_team_premium_cap, reset, Call, event, budget, team_budget, workflow_budget, premium_cap,
  clear, perform, perform_all,
}

-- The alerts about the tenant.
abbrev pub alerts_about : {F : Type 0} → Text → List (Alert F) → ℕ
alerts_about tenant = count_by (λ x. x.tenant_id == tenant)

count_by-snoc :
    {A : Type 0} (p : A → Bool) (xs : List A) (x : A)
    → count_by p (xs ++ (x ∷ [])) ≡ count_by p xs + (if p x then 1 else 0)
count_by-snoc p [] x = ground arith
count_by-snoc p (y ∷ xs) x = ground (arith, count_by-snoc p xs x)

All-snoc :
    {A : Type 0} (P : A → Type 0) (xs : List A) (x : A) → All P xs → P x → All P (xs ++ (x ∷ []))
All-snoc P [] x h k = (k, tt)
All-snoc P (y ∷ xs) x h k = (h.0, All-snoc P xs x h.1 k)

module _ {F : Type 0} ⦃fl : Float F⦄ where
  -- A tenant that has crossed its budget has one alert, any other none, and every alert reports a
  -- cost above the budget.
  pub record IsAlerted (tenant : Text) (a : CostAccountant F) : Type 0 where
    pub once : alerts_about tenant a.alerts ≡ (if has_crossed tenant a then 1 else 0)
    pub over : All (λ x. flt x.budget x.spent ≡ true) a.alerts

  alert_over-IsAlerted :
      (tenant t : Text) (x : F) (b : Option F) (a : CostAccountant F)
      → IsAlerted tenant a
      → IsAlerted tenant (alert_over t x b a)
  unfolding alert_over
  alert_over-IsAlerted tenant t x none a v = v
  alert_over-IsAlerted tenant t x (some b) a v =
      let alert : Alert F = record { tenant_id = t; spent = x; budget = b } in
      elim (Bool-cases (flt b x && not (has_crossed t a))) [
        | inl fires ↦ rw fires (record {
          once = ground (
            arith,
            v.once,
            fires,
            count_by-snoc (λ y. y.tenant_id == tenant) a.alerts alert,
            text_beq_iff t tenant,
          );
          over =
              All-snoc (λ y. flt y.budget y.spent ≡ true) a.alerts alert v.over
                (ground (arith, fires));
        })
        | inr silent ↦ rw silent v
      ]

  charge_event-IsAlerted :
      (tenant : Text) (e : CostEvent F) (a : CostAccountant F)
      → IsAlerted tenant a
      → IsAlerted tenant (charge_event e a)
  unfolding charge_event
  charge_event-IsAlerted tenant e a v = record { once = v.once; over = v.over }

  perform-IsAlerted :
      (tenant : Text) (c : Call F) (a : CostAccountant F)
      → IsAlerted tenant a
      → IsAlerted tenant (perform c a)
  unfolding perform record_event set_budget set_team_budget set_workflow_budget set_team_premium_cap
      reset
  perform-IsAlerted tenant (event e) a v =
      alert_over-IsAlerted tenant e.tenant_id _ _ (charge_event e a)
        (charge_event-IsAlerted tenant e a v)
  perform-IsAlerted tenant (budget t x) a v = record { once = v.once; over = v.over }
  perform-IsAlerted tenant (team_budget t x) a v = record { once = v.once; over = v.over }
  perform-IsAlerted tenant (workflow_budget t x) a v = record { once = v.once; over = v.over }
  perform-IsAlerted tenant (premium_cap t x) a v = record { once = v.once; over = v.over }
  perform-IsAlerted tenant (clear c) a v = record { once = refl; over = tt }

  perform_all-IsAlerted :
      (tenant : Text) (cs : List (Call F)) (a : CostAccountant F)
      → IsAlerted tenant a
      → IsAlerted tenant (perform_all cs a)
  unfolding perform_all
  perform_all-IsAlerted tenant [] a v = v
  perform_all-IsAlerted tenant (c ∷ cs) a v =
      perform_all-IsAlerted tenant cs (perform c a) (perform-IsAlerted tenant c a v)

  new_accountant-IsAlerted :
      (tenant : Text) (budgets : Dict Text F) (n : ℕ) → IsAlerted tenant (new_accountant budgets n)
  new_accountant-IsAlerted tenant budgets n = record { once = refl; over = tt }

  over_crosses :
      (tenant : Text) (x b : F) (a : CostAccountant F)
      → flt b x ≡ true
      → has_crossed tenant (alert_over tenant x (some b) a) ≡ true
  unfolding alert_over
  over_crosses tenant x b a h = ground (arith, text_beq_iff tenant tenant)

  -- After any calls to a new accountant and then an event that leaves its tenant's cost above the
  -- tenant's budget, there is exactly one alert about the tenant, and every alert reports a cost
  -- above the budget it names.
  pub alerted_once :
      (cs : List (Call F)) (e : CostEvent F) (budgets : Dict Text F) (n : ℕ) (b : F)
      → let a = charge_event e (perform_all cs (new_accountant budgets n)) in
        lookup e.tenant_id a.budgets ≡ some b
        → flt b (rollup_of e.tenant_id a).total_cost_usd ≡ true
        → let a' = record_event e (perform_all cs (new_accountant budgets n)) in
          (alerts_about e.tenant_id a'.alerts ≡ 1)
          × All (λ x. flt x.budget x.spent ≡ true) a'.alerts
  unfolding record_event perform
  alerted_once cs e budgets n b h k =
      let t = e.tenant_id in
      let a = perform_all cs (new_accountant budgets n) in
      let v = perform-IsAlerted t (event e) a (
        perform_all-IsAlerted t cs (new_accountant budgets n)
          (new_accountant-IsAlerted t budgets n)) in
      let crossed : has_crossed t (record_event e a) ≡ true =
        rw h
          (over_crosses t (rollup_of t (charge_event e a)).total_cost_usd b (charge_event e a) k) in
      (v.once ∙ ap (λ (c : Bool). if c then 1 else 0) crossed, v.over)
