-- ===== src/Router/Completion/Flag.antt =====
-- What the flags of a response say.
use intelli_route_team.Common.{
  ℕ, ◌<◌, ◌≡◌, ◌⊎◌, refl, true, false, not, ◌||◌, List, [], ◌∷◌, arith, text_eq,
}
use intelli_route_team.Common.Float.{Float}
use intelli_route_team.Router.Provider.{Intent, ScoredProvider}
use intelli_route_team.Router.Completion.{
  Environment, BudgetContext, RouteState, called, Served, RouteResult, budget_gate, after_call,
  attempt, pass, route, start,
}
use intelli_route_team.Router.Completion.Measure.{measure, After, Returns, route-Returns}

module _ {F : Type 0} ⦃fl : Float F⦄ (env : Environment F) (budget : BudgetContext F)
    (max_tokens : ℕ) (intent : Intent) (ranked : List (ScoredProvider F)) where
  -- Until the flag is set nothing has happened.
  record IsUntouched (st : RouteState F) : Type 0 where
    logged : st.fallback_used ≡ false → st.log ≡ []
    hopped : st.fallback_used ≡ false → st.hops ≡ 0
    waiting : st.fallback_used ≡ false → st.pending ≡ ranked
    tried : st.fallback_used ≡ false → st.provider_attempts ≡ []

  pub record IsHonest (v : Served F) (st : RouteState F) : Type 0 where
    pub first_call :
        (v.fallback_used ≡ true)
        ⊎ ((st.log ≡ called v.provider.provider.name 1 true ∷ [])
            × (v.provider ∷ st.pending ≡ ranked))
    pub degraded_fallback : (not v.degraded || v.fallback_used) ≡ true

  attempt-IsUntouched :
      (s : ScoredProvider F) (rest : List (ScoredProvider F)) (st : RouteState F)
      → (st.fallback_used ≡ false → st.log ≡ [])
      → (st.fallback_used ≡ false → st.hops ≡ 0)
      → (st.fallback_used ≡ false → s ∷ rest ≡ ranked)
      → (st.fallback_used ≡ false → st.provider_attempts ≡ [])
      → After IsUntouched IsHonest (attempt env budget max_tokens intent s rest st)
  unfolding attempt after_call
  attempt-IsUntouched s rest st l h w t = ground arith

  gate_unchanged :
      (head : ScoredProvider F) (rest : List (ScoredProvider F))
      → let (s, others, demoted) = budget_gate budget max_tokens head rest in
        demoted ≡ false → s ∷ others ≡ head ∷ rest
  unfolding budget_gate
  gate_unchanged head rest = ground arith

  pass-IsUntouched :
      (st : RouteState F) (head : ScoredProvider F) (rest : List (ScoredProvider F))
      → st.pending ≡ head ∷ rest
      → IsUntouched st
      → After IsUntouched IsHonest (pass env budget max_tokens intent head rest st)
  unfolding pass
  pass-IsUntouched st head rest e b =
      let (s, others, demoted) = budget_gate budget max_tokens head rest in
      attempt-IsUntouched s others (record st { fallback_used = st.fallback_used || demoted })
        (λ f. ground (arith, b.logged, f)) (λ f. ground (arith, b.hopped, f))
        (λ f. ground (arith, b.waiting, e, f, gate_unchanged head rest))
        (λ f. ground (arith, b.tried, f))

  -- With fuel for every attempt that the ranking allows, the loop ends. A response that does not
  -- report a fallback comes from the first call of the loop, and that call was of the provider
  -- that was ranked first; a degraded response reports a fallback.
  pub route-IsHonest :
      (fuel : ℕ)
      → measure (start ranked) < fuel
      → Returns (λ st. Unit) IsHonest (route env budget max_tokens intent fuel (start ranked))
  route-IsHonest fuel h = weaken (route env budget max_tokens intent fuel (start ranked)) (
      route-Returns env budget max_tokens intent IsUntouched IsHonest pass-IsUntouched fuel
        (start ranked) h
        (record { logged = λ _. refl; hopped = λ _. refl; waiting = λ _. refl; tried = λ _. refl }))
    where
      weaken :
          (res : RouteResult F)
          → Returns IsUntouched IsHonest res
          → Returns (λ st. Unit) IsHonest res
      weaken RouteResult.out_of_fuel h = h
      weaken (RouteResult.all_failed st) h = (tt, h.1)
      weaken (RouteResult.completed v st) h = h
