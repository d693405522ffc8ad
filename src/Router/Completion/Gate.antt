-- ===== src/Router/Completion/Gate.antt =====
-- What the budget gate chooses.
use intelli_route_team.Common.{
  ℕ, ◌≡◌, sym, subst, inl, inr, Bool, true, List, [], ◌∷◌, arith, text_eq, All, if◌then◌else◌,
  Bool-cases,
}
use intelli_route_team.Common.Float.{Float, IsFloat}
use intelli_route_team.Common.Sort.{sum_by}
use intelli_route_team.Router.Provider.{ScoredProvider}
use intelli_route_team.Router.Completion.{
  BudgetContext, cost_of, exceeds, select_cheapest, budget_gate,
}
use intelli_route_team.Router.Completion.Measure.{sum_by-budget_gate}

module _ {F : Type 0} ⦃fl : Float F⦄ (laws : IsFloat F) where
  open fl use {fle}
  open laws use {fle_refl, fle_trans, fle_total}

  -- No provider of the list is cheaper.
  abbrev pub Cheapest : ScoredProvider F → List (ScoredProvider F) → Type 0
  Cheapest s = All (λ t. fle (cost_of s) (cost_of t) ≡ true)

  Cheapest-trans :
      (a b : ScoredProvider F) (ts : List (ScoredProvider F))
      → fle (cost_of a) (cost_of b) ≡ true
      → Cheapest b ts
      → Cheapest a ts
  Cheapest-trans a b [] h c = tt
  Cheapest-trans a b (t ∷ ts) h c =
      (fle_trans (cost_of a) (cost_of b) (cost_of t) h c.0, Cheapest-trans a b ts h c.1)

  select_cheapest-cons :
      (s t : ScoredProvider F) (ts : List (ScoredProvider F))
      → let best = (select_cheapest t ts).0 in
        (select_cheapest s (t ∷ ts)).0 ≡ (if fle (cost_of s) (cost_of best) then s else best)
  unfolding select_cheapest
  select_cheapest-cons s t ts = ground arith

  -- The better of `s` and of the cheapest of `ts` is the cheapest of both.
  better-Cheapest :
      (s best : ScoredProvider F) (ts : List (ScoredProvider F))
      → Cheapest best ts
      → Cheapest (if fle (cost_of s) (cost_of best) then s else best) (s ∷ ts)
  better-Cheapest s best ts c = elim (Bool-cases (fle (cost_of s) (cost_of best))) [
    | inl keep ↦
        subst (λ (b : Bool). Cheapest (if b then s else best) (s ∷ ts)) (sym keep)
          (fle_refl (cost_of s), Cheapest-trans s best ts keep c)
    | inr other ↦
        subst (λ (b : Bool). Cheapest (if b then s else best) (s ∷ ts)) (sym other)
          (fle_total (cost_of s) (cost_of best) other, c)
  ]

  select_cheapest-Cheapest :
      (s : ScoredProvider F) (ts : List (ScoredProvider F))
      → Cheapest (select_cheapest s ts).0 (s ∷ ts)
  unfolding select_cheapest
  select_cheapest-Cheapest s [] = (fle_refl (cost_of s), tt)
  select_cheapest-Cheapest s (t ∷ ts) =
      subst (λ a. Cheapest a (s ∷ t ∷ ts)) (sym (select_cheapest-cons s t ts))
        (better-Cheapest s (select_cheapest t ts).0 (t ∷ ts) (select_cheapest-Cheapest t ts))

  budget_gate-over :
      (b : BudgetContext F) (m : ℕ) (head : ScoredProvider F) (rest : List (ScoredProvider F))
      → exceeds b m head ≡ true
      → let best = (select_cheapest head rest).0 in
        (budget_gate b m head rest).0 ≡ (if fle (cost_of head) (cost_of best) then head else best)
  unfolding budget_gate
  budget_gate-over b m head rest e = ground arith

  -- If the head would take a budget over its limit, the gate puts forward a provider than which no
  -- pending one is cheaper, and what it passes on are the pending providers, each as often as before.
  pub budget_gate-Cheapest :
      (f : ScoredProvider F → ℕ) (b : BudgetContext F) (m : ℕ) (head : ScoredProvider F)
      (rest : List (ScoredProvider F))
      → exceeds b m head ≡ true
      → let (s, others, demoted) = budget_gate b m head rest in
        Cheapest s (head ∷ rest) × (sum_by f (s ∷ others) ≡ sum_by f (head ∷ rest))
  budget_gate-Cheapest f b m head rest e = (
    subst (λ a. Cheapest a (head ∷ rest)) (sym (budget_gate-over b m head rest e))
        (better-Cheapest head (select_cheapest head rest).0 (head ∷ rest)
          (select_cheapest-Cheapest head rest)).1,
    sum_by-budget_gate f b m head rest,
  )
