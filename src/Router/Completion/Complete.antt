-- ===== src/Router/Completion/Complete.antt =====
-- What a served request and a failed one say of the providers.
use intelli_route_team.Common.{
  ℕ, ◌+◌, ◌≤◌, ◌<◌, ◌≡◌, refl, Bool, true, false, ◌||◌, List, [], ◌∷◌, arith, Text, text_eq, ◌==◌,
  All, count_by, if◌then◌else◌,
}
use intelli_route_team.Common.Float.{Float}
use intelli_route_team.Common.Sort.{sum_by}
use intelli_route_team.Router.Provider.{Intent, ScoredProvider}
use intelli_route_team.Router.Fallback.Order.{sum_by-reorder_pending}
use intelli_route_team.Router.Completion.{
  Environment, BudgetContext, RouteState, RouteEvent, quota_skip, retries_exhausted, limited,
  called, Served, RouteResult, limit_reached, budget_gate, after_call, attempt, pass, route, start,
}
use intelli_route_team.Router.Completion.Measure.{
  measure, After, Returns, sum_by-budget_gate, route-Returns,
}

-- The event is about a provider of the name.
abbrev pub is_about : Text → RouteEvent → Bool
is_about k (quota_skip name) = name == k
is_about k (retries_exhausted name) = name == k
is_about k (limited name) = name == k
is_about k (called name local ok) = name == k

abbrev pub named : {F : Type 0} → Text → ScoredProvider F → ℕ
named k s = if s.provider.name == k then 1 else 0

-- The provider fails the test.
abbrev fails : {F : Type 0} → (ScoredProvider F → Bool) → ScoredProvider F → ℕ
fails test s = if test s then 0 else 1

none_fails :
    {F : Type 0} (test : ScoredProvider F → Bool) (xs : List (ScoredProvider F))
    → All (λ s. test s ≡ true) xs
    → sum_by (fails test) xs ≡ 0
none_fails test [] h = refl
none_fails test (x ∷ xs) h = ground (arith, h.0, none_fails test xs h.1)

module _ {F : Type 0} ⦃fl : Float F⦄ (env : Environment F) (budget : BudgetContext F)
    (max_tokens : ℕ) (intent : Intent) (k : Text) (test : ScoredProvider F → Bool) where
  record IsAccounted (st : RouteState F) : Type 0 where
    known : 1 ≤ sum_by (named k) st.pending + count_by (is_about k) st.log
    tested : sum_by (fails test) st.pending ≡ 0

  -- The served provider answered in the last pass, the rate limiter let it, its daily quota was not
  -- used up, and it passes the test.
  pub record IsEarned (v : Served F) (st : RouteState F) : Type 0 where
    pub answered : v.result ≡ env.call st.attempts v.provider.provider
    pub succeeded : v.result.ok ≡ true
    pub allowed : env.rate_allowed st.attempts v.provider.provider.name ≡ true
    pub in_quota :
        limit_reached
          (env.quota_limit v.provider.provider.name)
          (env.used st.attempts v.provider.provider.name)
        ≡ false
    pub passes : test v.provider ≡ true

  attempt-IsAccounted :
      (s : ScoredProvider F) (rest : List (ScoredProvider F)) (st : RouteState F)
      → 1 ≤ named k s + sum_by (named k) rest + count_by (is_about k) st.log
      → fails test s + sum_by (fails test) rest ≡ 0
      → After IsAccounted IsEarned (attempt env budget max_tokens intent s rest st)
  unfolding attempt after_call
  attempt-IsAccounted s rest st h t = ground (
    arith,
    sum_by-reorder_pending (named k) rest s.provider.capability_tier intent,
    sum_by-reorder_pending (fails test) rest s.provider.capability_tier intent,
  )

  pass-IsAccounted :
      (st : RouteState F) (head : ScoredProvider F) (rest : List (ScoredProvider F))
      → st.pending ≡ head ∷ rest
      → IsAccounted st
      → After IsAccounted IsEarned (pass env budget max_tokens intent head rest st)
  unfolding pass
  pass-IsAccounted st head rest e b =
      let (s, others, demoted) = budget_gate budget max_tokens head rest in
      attempt-IsAccounted s others (record st { fallback_used = st.fallback_used || demoted })
        (ground (arith, e, b.known, sum_by-budget_gate (named k) budget max_tokens head rest))
        (ground (arith, e, b.tested, sum_by-budget_gate (fails test) budget max_tokens head rest))

  -- The loop ends, with fuel for every attempt that the ranking allows. If it fails, every ranked
  -- name has an event: its provider was called, limited, over its quota or out of retries, and none
  -- was passed over. If it serves, the provider has whatever all ranked providers have, and its own
  -- successful answer, within the rate limit and the daily quota, is what the client gets.
  pub route_accounts :
      (fuel : ℕ) (ranked : List (ScoredProvider F))
      → measure (start ranked) < fuel
      → 1 ≤ sum_by (named k) ranked
      → All (λ s. test s ≡ true) ranked
      → Returns
          (λ st. 1 ≤ count_by (is_about k) st.log)
          IsEarned
          (route env budget max_tokens intent fuel (start ranked))
  route_accounts fuel ranked h m t =
      weaken (route env budget max_tokens intent fuel (start ranked)) (
        route-Returns env budget max_tokens intent IsAccounted IsEarned pass-IsAccounted fuel
          (start ranked) h (record { known = omega (arith, m); tested = none_fails test ranked t }))
    where
      weaken :
          (res : RouteResult F)
          → Returns IsAccounted IsEarned res
          → Returns (λ st. 1 ≤ count_by (is_about k) st.log) IsEarned res
      weaken RouteResult.out_of_fuel h = h
      weaken (RouteResult.all_failed st) h = (ground (arith, h.0.known, h.1), h.1)
      weaken (RouteResult.completed v st) h = h
