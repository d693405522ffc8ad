-- ===== src/Router/Fallback/Order.antt =====
-- Reordering loses no provider, and the ladder sorts by its bands.
use intelli_route_team.Common.{ℕ, ◌+◌, ◌≡◌, List, [], ◌∷◌, arith, leb, ltb, filter_by}
use intelli_route_team.Common.Float.{Float}
use intelli_route_team.Common.Sort.{sum_by, sum_by-append, sum_by-sort_by}
use intelli_route_team.Router.Provider.{Intent, ScoredProvider}
use intelli_route_team.Router.Fallback.{
  reorder_after_failure, ladder_less, apply_ladder, reorder_pending,
}

module _ {F : Type 0} where
  sum_by-higher :
      (f : ScoredProvider F → ℕ) (t : ℕ) (xs : List (ScoredProvider F))
      → sum_by f (filter_by (λ s. leb s.provider.capability_tier t) xs)
          + sum_by f (filter_by (λ s. ltb t s.provider.capability_tier) xs)
        ≡ sum_by f xs
  sum_by-higher f t [] = omega arith
  sum_by-higher f t (x ∷ xs) = ground (arith, sum_by-higher f t xs)

  pub sum_by-reorder_after_failure :
      (f : ScoredProvider F → ℕ) (xs : List (ScoredProvider F)) (t : ℕ)
      → sum_by f (reorder_after_failure xs t) ≡ sum_by f xs
  unfolding reorder_after_failure
  sum_by-reorder_after_failure f xs t = omega (
    arith,
    sum_by-higher f t xs,
    sum_by-append f (filter_by (λ s. leb s.provider.capability_tier t) xs)
        (filter_by (λ s. ltb t s.provider.capability_tier) xs),
  )

module _ {F : Type 0} ⦃fl : Float F⦄ where
  pub sum_by-reorder_pending :
      (f : ScoredProvider F → ℕ) (xs : List (ScoredProvider F)) (t : ℕ) (i : Intent)
      → sum_by f (reorder_pending xs t i) ≡ sum_by f xs
  unfolding reorder_pending apply_ladder
  sum_by-reorder_pending f xs t i = ground (
    arith,
    sum_by-reorder_after_failure f xs t,
    sum_by-sort_by ladder_less f (reorder_after_failure xs t),
  )
