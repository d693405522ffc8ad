-- ===== src/Router/Policy/Order.antt =====
-- What `rank` returns: which providers, and in which order.
use intelli_route_team.Common.{
  ℕ, ◌≡◌, ◌∙◌, refl, inl, inr, true, false, not, List, [], ◌∷◌, map, Text, text_eq, arith,
  filter_by, all_by, All, All-weaken_by, Bool, Option, none, some, ◌&&◌, ◌||◌, ltb, nat_beq,
  if◌then◌else◌, Bool-cases, List-cases,
}
use intelli_route_team.Common.Dict.{Dict, lookup}
use intelli_route_team.Common.Float.{Float, IsFloat}
use intelli_route_team.Common.Sort.{sum_by, sum_by-sort_by, sort_by, sort_by-IsSorted, IsSorted}
use intelli_route_team.HealthMonitor.Breaker.{CircuitState, closed, open_, half_open, is_half_open}
use intelli_route_team.HealthMonitor.Monitor.{ProviderHealth}
use intelli_route_team.Router.Provider.{ProviderInfo, ScoredProvider}
use intelli_route_team.Router.Policy.{
  RoutingPolicy, RankOptions, is_open_in, usable_providers, score_provider, is_half_open_in,
  probe_less, higher_score, order_scored, any_half_open, rank,
}

abbrev pub circuit_urgency : CircuitState → ℕ
circuit_urgency closed = 0
circuit_urgency open_ = 0
circuit_urgency half_open = 1

circuit_urgency_lem : (c : CircuitState) → circuit_urgency c ≡ (if is_half_open c then 1 else 0)
circuit_urgency_lem closed = refl
circuit_urgency_lem open_ = refl
circuit_urgency_lem half_open = refl

-- 1 for a half-open circuit, else 0.
abbrev pub urgency_in : {F : Type 0} → Option (ProviderHealth F) → ℕ
urgency_in none = 0
urgency_in (some h) = circuit_urgency h.circuit_state

urgency_in_lem :
    {F : Type 0} (o : Option (ProviderHealth F))
    → urgency_in o
      ≡ (if elim o [ some h ↦ is_half_open h.circuit_state | none ↦ false ] then 1 else 0)
urgency_in_lem none = refl
urgency_in_lem (some h) = circuit_urgency_lem h.circuit_state

module _ {F : Type 0} ⦃fl : Float F⦄ where
  sum_by-map :
      (f : ProviderInfo F → ℕ) (g : ProviderInfo F → ScoredProvider F) (ps : List (ProviderInfo F))
      → ((p : ProviderInfo F) → (g p).provider ≡ p)
      → sum_by (λ s. f s.provider) (map g ps) ≡ sum_by f ps
  sum_by-map f g [] h = refl
  sum_by-map f g (p ∷ ps) h = rw (h p, sum_by-map f g ps h) refl

  sum_by-order_scored :
      (f : ScoredProvider F → ℕ) (health : Dict Text (ProviderHealth F))
      (xs : List (ScoredProvider F))
      → sum_by f (order_scored health xs) ≡ sum_by f xs
  unfolding order_scored
  sum_by-order_scored f health xs = ground (
    arith,
    sum_by-sort_by higher_score f xs,
    sum_by-sort_by (probe_less health) f (sort_by higher_score xs),
  )

  -- The providers without an open circuit, and all of them if each one's is open.
  abbrev pub eligible : Dict Text (ProviderHealth F) → List (ProviderInfo F) → List (ProviderInfo F)
  eligible health providers =
      if all_by (λ p. is_open_in health p.name) providers
      then providers
      else filter_by (λ p. not (is_open_in health p.name)) providers

  pub none_open :
      (health : Dict Text (ProviderHealth F)) (ps : List (ProviderInfo F))
      → filter_by (λ p. not (is_open_in health p.name)) ps ≡ []
      → (all_by (λ q. is_open_in health q.name) ps ≡ true)
        × (filter_by (λ p. is_open_in health p.name) ps ≡ ps)
  none_open health [] h = (refl, refl)
  none_open health (p ∷ ps) h = ground (arith, none_open health ps)

  some_open :
      (health : Dict Text (ProviderHealth F)) (ps : List (ProviderInfo F))
      → (all_by (λ q. is_open_in health q.name) ps ≡ true)
      → filter_by (λ p. not (is_open_in health p.name)) ps ≡ []
  some_open health [] h = refl
  some_open health (p ∷ ps) h = ground (arith, some_open health ps)

  usable_providers_lem :
      (health : Dict Text (ProviderHealth F)) (ps : List (ProviderInfo F))
      → usable_providers health ps ≡ eligible health ps
  unfolding usable_providers
  usable_providers_lem health ps = elim (Bool-cases (all_by (λ q. is_open_in health q.name) ps)) [
    | inl all_open ↦
        let none_left = some_open health ps all_open in
        rw (all_open, none_left) (none_open health ps none_left).1
    | inr e ↦ elim (List-cases (filter_by (λ p. not (is_open_in health p.name)) ps)) [
      | inl none_left ↦ absurd (ground (arith, none_open health ps none_left, e))
      | inr (x, xs, left) ↦ rw (e, left) refl
    ]
  ]

  -- Whatever the health snapshot, `rank` returns each provider as often as it was given if its
  -- circuit is not open or all are, and no other.
  pub sum_by-rank :
      (f : ProviderInfo F → ℕ) (policy : RoutingPolicy F) (providers : List (ProviderInfo F))
      (health : Dict Text (ProviderHealth F)) (o : RankOptions F)
      → sum_by (λ s. f s.provider) (rank policy providers health o)
        ≡ sum_by f (eligible health providers)
  unfolding rank score_provider
  sum_by-rank f policy providers health o =
      sum_by-order_scored _ health _
      ∙ (sum_by-map f _ _ (λ p. refl) ∙ rw (usable_providers_lem health providers) refl)

  abbrev pub urgency : Dict Text (ProviderHealth F) → ScoredProvider F → ℕ
  urgency health s = urgency_in (lookup s.provider.name health)

  -- `a` may stand before `b`.
  abbrev pub precedes : Dict Text (ProviderHealth F) → ScoredProvider F → ScoredProvider F → Bool
  precedes health a b =
      ltb (urgency health b) (urgency health a)
      || (nat_beq (urgency health b) (urgency health a) && fl.fle b.score a.score)

  -- Each item may stand before all that follow it.
  abbrev pub IsRanked : Dict Text (ProviderHealth F) → List (ScoredProvider F) → Type 0
  IsRanked health [] = Unit
  IsRanked health (x ∷ xs) = All (λ y. precedes health x y ≡ true) xs × IsRanked health xs

  urgency_lem :
      (health : Dict Text (ProviderHealth F)) (s : ScoredProvider F)
      → urgency health s ≡ (if is_half_open_in health s.provider.name then 1 else 0)
  urgency_lem health s = urgency_in_lem (lookup s.provider.name health)

  sorted_precedes :
      (health : Dict Text (ProviderHealth F)) (x y : ScoredProvider F)
      → probe_less health y x ≡ false
      → precedes health x y ≡ true
  unfolding probe_less
  sorted_precedes health x y h = ground (arith, h, urgency_lem health x, urgency_lem health y)

  IsSorted-IsRanked :
      (health : Dict Text (ProviderHealth F)) (xs : List (ScoredProvider F))
      → IsSorted (probe_less health) xs
      → IsRanked health xs
  IsSorted-IsRanked health [] h = tt
  IsSorted-IsRanked health (x ∷ xs) h = (
    All-weaken_by (λ y. probe_less health y x ≡ false) (λ y. precedes health x y ≡ true) xs
        (sorted_precedes health x) h.0,
    IsSorted-IsRanked health xs h.1,
  )

  -- The order of `rank` on any two scored providers.
  module _ (laws : IsFloat F) where
    open laws use {fle_trans, fle_total}

    probe_less_asymm :
        (health : Dict Text (ProviderHealth F)) (a b : ScoredProvider F)
        → probe_less health a b ≡ true
        → probe_less health b a ≡ false
    unfolding probe_less
    probe_less_asymm health a b h = ground (arith, fle_total a.score b.score)

    probe_less_trans :
        (health : Dict Text (ProviderHealth F)) (a b c : ScoredProvider F)
        → probe_less health b a ≡ false
        → probe_less health c b ≡ false
        → probe_less health c a ≡ false
    unfolding probe_less
    probe_less_trans health a b c h k = ground (arith, fle_trans c.score b.score a.score)

    no_probe :
        (health : Dict Text (ProviderHealth F)) (name : Text)
        → any_half_open health ≡ false
        → is_half_open_in health name ≡ false
    no_probe [] name h = refl
    no_probe ((k, v) ∷ d) name h = ground (arith, no_probe d name)

    same_order :
        (health : Dict Text (ProviderHealth F)) (x y : ScoredProvider F)
        → any_half_open health ≡ false
        → probe_less health y x ≡ higher_score y x
    unfolding probe_less
    same_order health x y h =
        rw (no_probe health x.provider.name h, no_probe health y.provider.name h) refl

    by_score_IsSorted :
        (health : Dict Text (ProviderHealth F)) (xs : List (ScoredProvider F))
        → any_half_open health ≡ false
        → IsSorted higher_score xs
        → IsSorted (probe_less health) xs
    by_score_IsSorted health [] h k = tt
    by_score_IsSorted health (x ∷ xs) h k = (
      All-weaken_by (λ y. higher_score y x ≡ false) (λ y. probe_less health y x ≡ false) xs
          (λ y e. same_order health x y h ∙ e) k.0,
      by_score_IsSorted health xs h k.1,
    )

    higher_score_asymm :
        (a b : ScoredProvider F) → higher_score a b ≡ true → higher_score b a ≡ false
    higher_score_asymm a b h = ground (arith, fle_total a.score b.score)

    higher_score_trans :
        (a b c : ScoredProvider F)
        → higher_score b a ≡ false
        → higher_score c b ≡ false
        → higher_score c a ≡ false
    higher_score_trans a b c h k = ground (arith, fle_trans c.score b.score a.score)

    order_scored-IsSorted :
        (health : Dict Text (ProviderHealth F)) (xs : List (ScoredProvider F))
        → IsSorted (probe_less health) (order_scored health xs)
    unfolding order_scored
    order_scored-IsSorted health xs = elim (Bool-cases (any_half_open health)) [
      | inl probe ↦ rw probe (
          sort_by-IsSorted (probe_less health) (probe_less_asymm health) (probe_less_trans health)
            _)
      | inr quiet ↦ rw quiet (
          by_score_IsSorted health (sort_by higher_score xs) quiet
            (sort_by-IsSorted higher_score higher_score_asymm higher_score_trans xs))
    ]

    rank-IsSorted :
        (policy : RoutingPolicy F) (providers : List (ProviderInfo F))
        (health : Dict Text (ProviderHealth F)) (o : RankOptions F)
        → IsSorted (probe_less health) (rank policy providers health o)
    unfolding rank
    rank-IsSorted policy providers health o = order_scored-IsSorted health _

    -- Whatever the health snapshot, `rank` returns the providers without an open circuit (all of
    -- them if each one's is open), each as often as it was given; those that the snapshot shows
    -- half-open come before all others, and within either group the higher scores come first.
    pub rank-IsRanked :
        (policy : RoutingPolicy F) (providers : List (ProviderInfo F))
        (health : Dict Text (ProviderHealth F)) (o : RankOptions F) (f : ProviderInfo F → ℕ)
        → let ranked = rank policy providers health o in
          IsRanked health ranked
          × (sum_by (λ s. f s.provider) ranked ≡ sum_by f (eligible health providers))
    rank-IsRanked policy providers health o f = (
      IsSorted-IsRanked health _ (rank-IsSorted policy providers health o),
      sum_by-rank f policy providers health o,
    )
