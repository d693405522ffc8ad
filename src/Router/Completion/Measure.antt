-- ===== src/Router/Completion/Measure.antt =====
-- The loop ends: each pass uses up one of the attempts that the pending providers have left. Its
-- rule gives what holds after the loop from what each pass keeps.
use intelli_route_team.Common.{
  ℕ, zero, suc, ◌+◌, ◌-◌, ◌≤◌, ◌<◌, ◌≡◌, refl, subst, List-cases, inl, inr, ◌||◌, List, [], ◌∷◌,
  arith, Text, text_eq, text_beq_iff, if◌then◌else◌,
}
use intelli_route_team.Common.Dict.{Dict, insert, lookup-insert}
use intelli_route_team.Common.Float.{Float}
use intelli_route_team.Common.Sort.{sum_by}
use intelli_route_team.Router.Provider.{Intent, ScoredProvider}
use intelli_route_team.Router.Fallback.Order.{sum_by-reorder_pending}
use intelli_route_team.Router.Completion.{
  Environment, BudgetContext, RouteState, Served, StepResult, go_on, served, RouteResult,
  out_of_fuel, all_failed, completed, tries_of, retry_budget, select_cheapest, budget_gate,
  after_call, attempt, pass, route,
}

-- The passes that a pending provider may still use.
abbrev pub weight : {F : Type 0} → Dict Text ℕ → ScoredProvider F → ℕ
weight d s = suc (retry_budget s - tries_of s.provider.name d)

abbrev pub measure : {F : Type 0} → RouteState F → ℕ
measure st = sum_by (weight st.provider_attempts) st.pending

pub tries_of-insert :
    (k j : Text) (n : ℕ) (d : Dict Text ℕ)
    → tries_of j (insert k n d) ≡ (if text_eq.same k j then n else tries_of j d)
tries_of-insert k j n d = ground (arith, lookup-insert k j n d)

weight-insert :
    {F : Type 0} (k : Text) (d : Dict Text ℕ) (s : ScoredProvider F)
    → weight (insert k (tries_of k d + 1) d) s ≤ weight d s
weight-insert k d s =
    ground (
      arith,
      tries_of-insert k s.provider.name (tries_of k d + 1) d,
      text_beq_iff k s.provider.name,
    )

sum_by-weight :
    {F : Type 0} (k : Text) (d : Dict Text ℕ) (xs : List (ScoredProvider F))
    → sum_by (weight (insert k (tries_of k d + 1) d)) xs ≤ sum_by (weight d) xs
sum_by-weight k d [] = omega arith
sum_by-weight k d (x ∷ xs) = omega (arith, weight-insert k d x, sum_by-weight k d xs)

-- What holds after a pass: `P` if the loop goes on, `Q` if the client is served.
abbrev pub After :
    {F : Type 0}
    → (RouteState F → Type 0)
    → (Served F → RouteState F → Type 0)
    → StepResult F
    → Type 0
After P Q (go_on st) = P st
After P Q (served v st) = Q v st

-- What holds after the loop; it has not run out of fuel.
abbrev pub Returns :
    {F : Type 0}
    → (RouteState F → Type 0)
    → (Served F → RouteState F → Type 0)
    → RouteResult F
    → Type 0
Returns P Q out_of_fuel = ⊥
Returns P Q (all_failed st) = P st × (st.pending ≡ [])
Returns P Q (completed v st) = Q v st

module _ {F : Type 0} ⦃fl : Float F⦄ where
  sum_by-select_cheapest :
      (f : ScoredProvider F → ℕ) (s : ScoredProvider F) (ts : List (ScoredProvider F))
      → let (best, rest) = select_cheapest s ts in f best + sum_by f rest ≡ f s + sum_by f ts
  unfolding select_cheapest
  sum_by-select_cheapest f s [] = refl
  sum_by-select_cheapest f s (t ∷ ts) = ground (arith, sum_by-select_cheapest f t ts)

  -- The gate keeps every provider as often as it is pending.
  pub sum_by-budget_gate :
      (f : ScoredProvider F → ℕ) (b : BudgetContext F) (m : ℕ) (s : ScoredProvider F)
      (ts : List (ScoredProvider F))
      → let (best, rest, _) = budget_gate b m s ts in f best + sum_by f rest ≡ f s + sum_by f ts
  unfolding budget_gate
  sum_by-budget_gate f b m s ts = ground (arith, sum_by-select_cheapest f s ts)

  module _ (env : Environment F) (budget : BudgetContext F) (max_tokens : ℕ) (intent : Intent) where
    abbrev Falls : ℕ → StepResult F → Type 0
    Falls n = After (λ st. measure st < n) (λ v st. Unit)

    attempt-Falls :
        (s : ScoredProvider F) (rest : List (ScoredProvider F)) (st : RouteState F)
        → Falls
            (weight st.provider_attempts s + sum_by (weight st.provider_attempts) rest)
            (attempt env budget max_tokens intent s rest st)
    unfolding attempt after_call
    attempt-Falls s rest st =
        let name = s.provider.name in
        let d = st.provider_attempts in
        let d' = insert name (tries_of name d + 1) d in
        ground (
          arith,
          sum_by-reorder_pending (weight d') rest s.provider.capability_tier intent,
          sum_by-weight name d rest,
          tries_of-insert name name (tries_of name d + 1) d,
          text_beq_iff name name,
        )

    pass-Falls :
        (head : ScoredProvider F) (rest : List (ScoredProvider F)) (st : RouteState F)
        → Falls
            (weight st.provider_attempts head + sum_by (weight st.provider_attempts) rest)
            (pass env budget max_tokens intent head rest st)
    unfolding pass
    pass-Falls head rest st =
        let (s, others, demoted) = budget_gate budget max_tokens head rest in
        let st' = record st { fallback_used = st.fallback_used || demoted } in
        subst (λ n. Falls n (attempt env budget max_tokens intent s others st'))
          (sum_by-budget_gate (weight st.provider_attempts) budget max_tokens head rest)
          (attempt-Falls s others st')

    module _ (P : RouteState F → Type 0) (Q : Served F → RouteState F → Type 0) where
      -- The rest of the loop after a pass.
      abbrev resume : ℕ → StepResult F → RouteResult F
      resume fuel (go_on st) = route env budget max_tokens intent fuel st
      resume fuel (served v st) = completed v st

      route-some :
          (fuel : ℕ) (st : RouteState F) (head : ScoredProvider F) (rest : List (ScoredProvider F))
          → st.pending ≡ head ∷ rest
          → route env budget max_tokens intent (suc fuel) st
            ≡ resume fuel (pass env budget max_tokens intent head rest st)
      unfolding route
      route-some fuel st head rest e = ground arith

      route-none :
          (fuel : ℕ) (st : RouteState F)
          → st.pending ≡ []
          → route env budget max_tokens intent (suc fuel) st ≡ all_failed st
      unfolding route
      route-none fuel st e = ground arith

      resume-Returns :
          (fuel n : ℕ) (r : StepResult F)
          → ((st : RouteState F)
              → measure st < fuel
              → P st
              → Returns P Q (route env budget max_tokens intent fuel st))
          → n ≤ fuel
          → Falls n r
          → After P Q r
          → Returns P Q (resume fuel r)
      resume-Returns fuel n (go_on st) ih h f a = ih st (omega arith) a
      resume-Returns fuel n (served v st) ih h f a = a

      -- With more fuel than the pending providers have passes left, the loop ends with what its
      -- passes keep.
      pub route-Returns :
          ((st : RouteState F) (head : ScoredProvider F) (rest : List (ScoredProvider F))
            → st.pending ≡ head ∷ rest
            → P st
            → After P Q (pass env budget max_tokens intent head rest st))
          → (fuel : ℕ) (st : RouteState F) → measure st < fuel
          → P st
          → Returns P Q (route env budget max_tokens intent fuel st)
      route-Returns keep zero st h p = elim h [ ]
      route-Returns keep (suc fuel) st h p = elim (List-cases st.pending) [
        | inl e ↦ rw (route-none fuel st e) (p, e)
        | inr (head, rest, e) ↦ rw (route-some fuel st head rest e) (
            resume-Returns fuel _ (pass env budget max_tokens intent head rest st)
              (λ st' h' p'. route-Returns keep fuel st' h' p') (ground (arith, e))
              (pass-Falls head rest st) (keep st head rest e p))
      ]
