-- ===== src/CostTracker/Accounting/Queries.antt =====
-- `headroom`, `would_exceed`, `event_history` and `total_event_count` of `CostAccountant`.
use intelli_route_team.Common.{
  ℕ, ◌≡◌, Bool, false, Option, none, some, List, arith, Text, text_eq, ◌==◌, length, take, drop,
  filter_by, count_by,
}
use intelli_route_team.Common.Int.{ℤ, ◌+ℤ◌, ◌-ℤ◌}
use intelli_route_team.Common.Dict.{lookup}
use intelli_route_team.Common.Float.{Float, flt, int_float}
use intelli_route_team.CostTracker.Accounting.{CostEvent, CostAccountant, rollup_of}

module _ {F : Type 0} ⦃fl : Float F⦄ where
  open fl use {add, sub, fle}

  abbrev remaining : Option F → F → Option F
  remaining none spent = none
  remaining (some budget) spent = some (sub budget spent)

  unfoldable pub headroom : Text → CostAccountant F → Option F
  headroom tenant a = remaining (lookup tenant a.budgets) (rollup_of tenant a).total_cost_usd

  abbrev passes : F → Option F → Bool
  passes projected none = false
  passes projected (some h) = flt h projected

  unfoldable pub would_exceed : Text → F → CostAccountant F → Bool
  would_exceed tenant projected a = passes projected (headroom tenant a)

  -- The events of one tenant, or all.
  abbrev pub events_of : Option Text → CostAccountant F → List (CostEvent F)
  events_of none a = a.event_log
  events_of (some tenant) a = filter_by (λ e. e.tenant_id == tenant) a.event_log

  unfoldable pub event_history : Option Text → ℕ → ℕ → CostAccountant F → List (CostEvent F)
  event_history tenant limit offset a = take limit (drop offset (events_of tenant a))

  unfoldable pub total_event_count : Option Text → CostAccountant F → ℕ
  total_event_count none a = length a.event_log
  total_event_count (some tenant) a = count_by (λ e. e.tenant_id == tenant) a.event_log

-- In whole numbers, the projected cost of a tenant with a budget is said to exceed it exactly when the
-- cost so far and the projected cost together are above the budget.
pub would_exceed_lem :
    (tenant : Text) (projected limit : ℤ) (a : CostAccountant ℤ)
    → lookup tenant a.budgets ≡ some limit
    → would_exceed tenant projected a
      ≡ flt limit (int_float.add (rollup_of tenant a).total_cost_usd projected)
unfolding would_exceed headroom ◌+ℤ◌ ◌-ℤ◌
would_exceed_lem tenant projected limit a h = ground (arith, h)
