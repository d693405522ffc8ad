-- ===== src/Router/Modes/Candidates.antt =====
-- Which providers a mode gives.
use intelli_route_team.Common.{
  ℕ, zero, suc, ◌+◌, ◌%◌, ◌≡◌, ◌∙◌, refl, inl, inr, Bool, ◌||◌, List, [], ◌∷◌, arith, Text, text_eq,
  ◌==◌, take, drop, length, if◌then◌else◌, Bool-cases,
}
use intelli_route_team.Common.Dict.{Dict}
use intelli_route_team.Common.Float.{Float}
use intelli_route_team.Common.Sort.{sum_by, sum_by-append, sum_by-sort_by, sort_by}
use intelli_route_team.Common.Strings.{text}
use intelli_route_team.HealthMonitor.Monitor.{ProviderHealth}
use intelli_route_team.Router.Provider.{Intent, ProviderInfo, ScoredProvider, CompletionRequest}
use intelli_route_team.Router.Policy.{RoutingPolicy}
use intelli_route_team.Router.Policy.Order.{eligible, sum_by-rank}
use intelli_route_team.Router.Fallback.{apply_ladder, ladder_less}
use intelli_route_team.Router.Modes.{
  Modes, naive_from, naive_scored, rotated, name_less, cheaper, faster, more_premium,
  rank_candidates,
}

sum_by-drop-take :
    {A : Type 0} (f : A → ℕ) (n : ℕ) (xs : List A)
    → sum_by f (drop n xs) + sum_by f (take n xs) ≡ sum_by f xs
sum_by-drop-take f zero xs = omega arith
sum_by-drop-take f (suc n) [] = omega arith
sum_by-drop-take f (suc n) (x ∷ xs) = omega (arith, sum_by-drop-take f n xs)

-- The modes that do not score the candidates.
abbrev pub is_naive : Text → Bool
is_naive mode =
    mode == text "round_robin"
    || mode == text "cheapest_first"
    || mode == text "latency_first"
    || mode == text "premium_first"

module _ {F : Type 0} ⦃fl : Float F⦄ where
  sum_by-naive_from :
      (f : ProviderInfo F → ℕ) (i n : ℕ) (ps : List (ProviderInfo F))
      → sum_by (λ s. f s.provider) (naive_from i n ps) ≡ sum_by f ps
  unfolding naive_from
  sum_by-naive_from f i n [] = refl
  sum_by-naive_from f i n (p ∷ ps) = omega (arith, sum_by-naive_from f (i + 1) n ps)

  sum_by-rotated :
      (f : ProviderInfo F → ℕ) (cursor : ℕ) (ps : List (ProviderInfo F))
      → sum_by f (rotated cursor ps) ≡ sum_by f ps
  sum_by-rotated f cursor [] = refl
  sum_by-rotated f cursor (p ∷ ps) =
      let start = cursor % length (p ∷ ps) in
      sum_by-append f (drop start (p ∷ ps)) (take start (p ∷ ps))
      ∙ sum_by-drop-take f start (p ∷ ps)

  sum_by-naive :
      (f : ProviderInfo F → ℕ) (less : ProviderInfo F → ProviderInfo F → Bool)
      (ps : List (ProviderInfo F))
      → sum_by (λ s. f s.provider) (naive_scored (sort_by less ps)) ≡ sum_by f ps
  sum_by-naive f less ps = sum_by-naive_from f 0 _ (sort_by less ps) ∙ sum_by-sort_by less f ps

  sum_by-apply_ladder :
      (f : ScoredProvider F → ℕ) (xs : List (ScoredProvider F)) (i : Intent)
      → sum_by f (apply_ladder xs i) ≡ sum_by f xs
  unfolding apply_ladder
  sum_by-apply_ladder f xs i = ground (arith, sum_by-sort_by ladder_less f xs)

  -- In the modes round robin, cheapest, latency and premium first, the ranking has each candidate as
  -- often as it was given; in any other mode it has those without an open circuit, or all if each
  -- one's is open.
  pub sum_by-rank_candidates :
      (f : ProviderInfo F → ℕ) (mode : Text) (policy : RoutingPolicy F)
      (candidates : List (ProviderInfo F)) (health : Dict Text (ProviderHealth F)) (intent : Intent)
      (req : CompletionRequest F) (s : Modes)
      → sum_by (λ p. f p.provider) (rank_candidates mode policy candidates health intent req s).0
        ≡ (if is_naive mode then sum_by f candidates else sum_by f (eligible health candidates))
  unfolding rank_candidates
  sum_by-rank_candidates f mode policy candidates health intent req s =
      elim (Bool-cases (mode == text "round_robin")) [
        | inl e ↦ rw e (
            sum_by-naive_from f 0 _ (rotated s.rr_cursor (sort_by name_less candidates))
            ∙ sum_by-rotated f s.rr_cursor (sort_by name_less candidates)
            ∙ sum_by-sort_by name_less f candidates)
        | inr e ↦ elim (Bool-cases (mode == text "cheapest_first")) [
          | inl g ↦ rw (e, g) (sum_by-naive f cheaper candidates)
          | inr g ↦ elim (Bool-cases (mode == text "latency_first")) [
            | inl h ↦ rw (e, g, h) (sum_by-naive f faster candidates)
            | inr h ↦ elim (Bool-cases (mode == text "premium_first")) [
              | inl k ↦ rw (e, g, h, k) (sum_by-naive f more_premium candidates)
              | inr k ↦
                  rw (e, g, h, k)
                    (sum_by-apply_ladder (λ p. f p.provider) _ intent
                      ∙ sum_by-rank f policy candidates health _)
            ]
          ]
        ]
      ]
