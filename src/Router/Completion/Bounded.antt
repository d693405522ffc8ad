-- ===== src/Router/Completion/Bounded.antt =====
-- How often a provider is called.
use intelli_route_team.Common.{
  ℕ, ◌+◌, ◌≤◌, ◌<◌, ◌≡◌, refl, Bool, false, ◌&&◌, ◌||◌, List, [], ◌∷◌, arith, Text, text_eq,
  text_beq_iff, ◌==◌, ltb, max, All, count_by, if◌then◌else◌,
}
use intelli_route_team.Common.Float.{Float}
use intelli_route_team.Common.Sort.{sum_by}
use intelli_route_team.Router.Provider.{Intent, ScoredProvider}
use intelli_route_team.Router.Fallback.Order.{sum_by-reorder_pending}
use intelli_route_team.Router.Completion.{
  Environment, BudgetContext, RouteState, RouteEvent, called, Served, RouteResult, tries_of,
  budget_gate, after_call, attempt, pass, route, start,
}
use intelli_route_team.Router.Completion.Measure.{
  measure, tries_of-insert, After, Returns, sum_by-budget_gate, route-Returns,
}

abbrev is_call : Text → RouteEvent → Bool
is_call k (called name local ok) = name == k
is_call k _ = false

-- How often the loop has called providers of the name.
abbrev pub calls : Text → List RouteEvent → ℕ
calls k = count_by (is_call k)

-- A provider of the name with more retries than `r`.
abbrev offends : {F : Type 0} → Text → ℕ → ScoredProvider F → ℕ
offends k r s = if s.provider.name == k && ltb r s.provider.max_retries then 1 else 0

none_offends :
    {F : Type 0} (k : Text) (r : ℕ) (xs : List (ScoredProvider F))
    → All (λ s. s.provider.name ≡ k → s.provider.max_retries ≤ r) xs
    → sum_by (offends k r) xs ≡ 0
none_offends k r [] h = refl
none_offends k r (x ∷ xs) h =
    ground (arith, h.0, none_offends k r xs h.1, text_beq_iff x.provider.name k)

module _ {F : Type 0} ⦃fl : Float F⦄ (env : Environment F) (budget : BudgetContext F)
    (max_tokens : ℕ) (intent : Intent) (k : Text) (r : ℕ) where
  record IsBounded (st : RouteState F) : Type 0 where
    bound : calls k st.log ≤ max 1 r
    counted : calls k st.log ≤ tries_of k st.provider_attempts
    modest : sum_by (offends k r) st.pending ≡ 0

  abbrev AtMost : Served F → RouteState F → Type 0
  AtMost v st = calls k st.log ≤ max 1 r

  attempt-IsBounded :
      (s : ScoredProvider F) (rest : List (ScoredProvider F)) (st : RouteState F)
      → calls k st.log ≤ max 1 r
      → calls k st.log ≤ tries_of k st.provider_attempts
      → offends k r s + sum_by (offends k r) rest ≡ 0
      → After IsBounded AtMost (attempt env budget max_tokens intent s rest st)
  unfolding attempt after_call
  attempt-IsBounded s rest st h c m =
      let name = s.provider.name in
      ground (
        arith,
        tries_of-insert name k (tries_of name st.provider_attempts + 1) st.provider_attempts,
        text_beq_iff name k,
        sum_by-reorder_pending (offends k r) rest s.provider.capability_tier intent,
      )

  pass-IsBounded :
      (st : RouteState F) (head : ScoredProvider F) (rest : List (ScoredProvider F))
      → st.pending ≡ head ∷ rest
      → IsBounded st
      → After IsBounded AtMost (pass env budget max_tokens intent head rest st)
  unfolding pass
  pass-IsBounded st head rest e b =
      let (s, others, demoted) = budget_gate budget max_tokens head rest in
      attempt-IsBounded s others (record st { fallback_used = st.fallback_used || demoted }) b.bound
        b.counted
        (ground (arith, e, b.modest, sum_by-budget_gate (offends k r) budget max_tokens head rest))

  -- If no ranked provider of the name has more than `r` retries, the loop ends (with fuel for every
  -- attempt that the ranking allows) and has called providers of that name at most `max(1, r)`
  -- times, however it ends and whatever the other services and the providers answer.
  pub calls_bounded :
      (fuel : ℕ) (ranked : List (ScoredProvider F))
      → measure (start ranked) < fuel
      → All (λ s. s.provider.name ≡ k → s.provider.max_retries ≤ r) ranked
      → Returns
          (λ st. calls k st.log ≤ max 1 r)
          (λ v st. calls k st.log ≤ max 1 r)
          (route env budget max_tokens intent fuel (start ranked))
  calls_bounded fuel ranked h m = weaken (route env budget max_tokens intent fuel (start ranked)) (
      route-Returns env budget max_tokens intent IsBounded AtMost pass-IsBounded fuel (start ranked)
        h
        (record { bound = omega arith; counted = omega arith; modest = none_offends k r ranked m }))
    where
      weaken :
          (res : RouteResult F)
          → Returns IsBounded AtMost res
          → Returns (λ st. calls k st.log ≤ max 1 r) (λ v st. calls k st.log ≤ max 1 r) res
      weaken RouteResult.out_of_fuel h = h
      weaken (RouteResult.all_failed st) h = (h.0.bound, h.1)
      weaken (RouteResult.completed v st) h = h
