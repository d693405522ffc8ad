-- ===== src/Router/Tuner/Table.antt =====
-- The weight table under any calls of the tuner.
use intelli_route_team.Common.{
  ℕ, ◌≡◌, ◌∙◌, refl, inl, inr, true, false, Option, none, some, List, [], ◌∷◌, arith, All, ltb,
  Bool-cases, Option-cases,
}
use intelli_route_team.Common.Dict.{Dict, lookup, insert, lookup-insert}
use intelli_route_team.Common.Float.{Float, IsFloat, IsExact}
use intelli_route_team.Router.Provider.{Intent, intent_eq, intent_beq, intent_beq_iff}
use intelli_route_team.Router.Policy.{Weights}
use intelli_route_team.Router.Tuner.{
  Tuned, Call, observed, rebalanced, was_reset, new_tuner, window_of, with_table, maybe_rebalance,
  observe, restored, reset, perform, perform_all,
}
use intelli_route_team.Router.Tuner.Weight.{InRange, total, Keeps, rebalance-Keeps}

module _ {F : Type 0} ⦃fl : Float F⦄ where
  -- What an intent had at first, and what it has now: weights within their bounds, of the same sum.
  abbrev pub Tracks : Option (Weights F) → Option (Weights F) → Type 0
  Tracks none none = Unit
  Tracks (some v) (some w) = InRange w × (total w ≡ total v)
  Tracks _ _ = ⊥

  -- The table has an entry for each intent that had one at first, which tracks it.
  abbrev pub TracksTable : Dict Intent (Weights F) → Dict Intent (Weights F) → Type 0
  TracksTable base table = (i : Intent) → Tracks (lookup i base) (lookup i table)

  -- A dictionary of weights within their bounds: no key twice.
  abbrev pub IsBase : Dict Intent (Weights F) → Type 0
  IsBase base = All (λ e. (lookup e.0 base ≡ some e.1) × InRange e.1) base

  Tracks-after :
      (o : Option (Weights F)) (w v : Weights F)
      → Tracks o (some w)
      → Keeps w (some v)
      → Tracks o (some v)
  Tracks-after none w v h k = h
  Tracks-after (some u) w v h k = (k.0, k.1 ∙ h.1)

  Tracks-InRange : (o : Option (Weights F)) (w : Weights F) → Tracks o (some w) → InRange w
  Tracks-InRange none w h = absurd h
  Tracks-InRange (some v) w h = h.0

  TracksTable-insert :
      (base table : Dict Intent (Weights F)) (i : Intent) (v : Weights F)
      → TracksTable base table
      → Tracks (lookup i base) (some v)
      → TracksTable base (insert i v table)
  TracksTable-insert base table i v h k j =
      rw (lookup-insert i j v table) (elim (Bool-cases (intent_beq i j)) [
        | inl e ↦ rw (e, ← (intent_beq_iff i j).0 e) k
        | inr e ↦ rw e (h j)
      ])

  TracksTable-restored :
      (base es table : Dict Intent (Weights F))
      → All (λ e. (lookup e.0 base ≡ some e.1) × InRange e.1) es
      → TracksTable base table
      → TracksTable base (restored es table)
  TracksTable-restored base [] table b h = h
  TracksTable-restored base ((i, w) ∷ es) table b h = elim (Option-cases (lookup i table)) [
    | inl e ↦ rw e (TracksTable-restored base es table b.1 h)
    | inr (_, e) ↦ rw e (
        TracksTable-restored base es (insert i w table) b.1
          (TracksTable-insert base table i w h (rw b.0.0 (b.0.1, refl))))
  ]

  module _ (laws : IsFloat F) (exact : IsExact F) where
    TracksTable-with_table :
        (base : Dict Intent (Weights F)) (i : Intent) (v : Weights F) (o : Option (Weights F))
        (s : Tuned F)
        → TracksTable base s.table
        → lookup i s.table ≡ some v
        → Keeps v o
        → TracksTable base (with_table i o s).0.table
    TracksTable-with_table base i v none s h f k = h
    TracksTable-with_table base i v (some w) s h f k =
        TracksTable-insert base s.table i w h (Tracks-after (lookup i base) v w (rw f at (h i)) k)

    TracksTable-maybe_rebalance :
        (base : Dict Intent (Weights F)) (i : Intent) (s : Tuned F)
        → TracksTable base s.table
        → TracksTable base (maybe_rebalance i s).0.table
    unfolding maybe_rebalance
    TracksTable-maybe_rebalance base i s h =
        let w = window_of i s.tuner in
        elim (Bool-cases (ltb w.samples s.tuner.min_samples)) [
          | inl e ↦ rw e h
          | inr e ↦ elim (Option-cases (lookup i s.table)) [
            | inl f ↦ rw (e, f) h
            | inr (v, f) ↦
                rw (e, f)
                  (TracksTable-with_table base i v _ _ h f (
                    rebalance-Keeps laws exact w.credit s.tuner.step v
                      (Tracks-InRange (lookup i base) v (rw f at (h i)))))
          ]
        ]

    -- What the invariant says of the tuner: its baseline is the table at first.
    pub record IsTuned (base : Dict Intent (Weights F)) (s : Tuned F) : Type 0 where
      pub baseline : s.tuner.baseline_weights ≡ base
      pub tracks : TracksTable base s.table

    baseline-maybe_rebalance :
        (i : Intent) (s : Tuned F)
        → (maybe_rebalance i s).0.tuner.baseline_weights ≡ s.tuner.baseline_weights
    unfolding maybe_rebalance
    baseline-maybe_rebalance i s = ground arith

    perform-IsTuned :
        (base : Dict Intent (Weights F)) (c : Call F) (s : Tuned F)
        → IsBase base
        → IsTuned base s
        → IsTuned base (perform c s)
    unfolding perform observe reset
    perform-IsTuned base (observed i scores good) s b h = record {
      baseline = h.baseline;
      tracks = h.tracks;
    }
    perform-IsTuned base (rebalanced i) s b h = record {
      baseline = baseline-maybe_rebalance i s ∙ h.baseline;
      tracks = TracksTable-maybe_rebalance base i s h.tracks;
    }
    perform-IsTuned base (was_reset true) s b h = record {
      baseline = h.baseline;
      tracks = rw h.baseline (TracksTable-restored base base s.table b h.tracks);
    }
    perform-IsTuned base (was_reset false) s b h = record {
      baseline = h.baseline;
      tracks = h.tracks;
    }

    perform_all-from :
        (base : Dict Intent (Weights F)) (cs : List (Call F)) (s : Tuned F)
        → IsBase base
        → IsTuned base s
        → IsTuned base (perform_all cs s)
    unfolding perform_all
    perform_all-from base [] s b h = h
    perform_all-from base (c ∷ cs) s b h =
        perform_all-from base cs (perform c s) b (perform-IsTuned base c s b h)

    TracksTable-base :
        (base d : Dict Intent (Weights F))
        → All (λ e. (lookup e.0 base ≡ some e.1) × InRange e.1) d
        → TracksTable d d
    TracksTable-base base [] b i = tt
    TracksTable-base base ((j, w) ∷ d) b i = elim (Bool-cases (intent_beq j i)) [
      | inl e ↦ rw e (b.0.1, refl)
      | inr e ↦ rw e (TracksTable-base base d b.1 i)
    ]

    -- In exact arithmetic, from a table without repeated intents whose weights are within the bounds,
    -- whatever a new tuner observes, rebalances and resets: the same intents have weights in the table, each
    -- weight is within the bounds, and the weights of an intent have the sum that they had at first.
    pub perform_all-IsTuned :
        (base : Dict Intent (Weights F)) (step : F) (min_samples : ℕ) (cs : List (Call F))
        → IsBase base
        → TracksTable base (perform_all cs (new_tuner step min_samples base)).table
    perform_all-IsTuned base step min_samples cs b =
        (perform_all-from base cs (new_tuner step min_samples base) b
          (record { baseline = refl; tracks = TracksTable-base base base b })).tracks
