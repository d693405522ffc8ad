-- ===== src/Router/Tuner/Weight.antt =====
-- The weights that the tuner leaves: each within its bounds, and their sum as at first.
use intelli_route_team.Common.{
  ◌≡◌, ◌∙◌, sym, ap, refl, inl, inr, Bool, true, false, ◌||◌, Option, none, some, List, [], ◌∷◌,
  arith, if◌then◌else◌, Bool-cases,
}
use intelli_route_team.Common.Float.{Float, IsFloat, IsExact, nought, fmin, fmin-le, fmin-le_right}
use intelli_route_team.Router.Provider.{SubScores}
use intelli_route_team.Router.Policy.{Weights}
use intelli_route_team.Router.Tuner.{
  Dimension, latency, cost, capability, success, dimension_beq, weight_at, with_weight,
  sub_score_at, min_weight, max_weight, shift_weights, try_shifts, rebalance,
}

module _ {F : Type 0} ⦃fl : Float F⦄ where
  open fl use {add, sub, fle}

  -- The sum of the weights.
  abbrev pub total : Weights F → F
  total w = add (add (add w.latency w.cost) w.capability) w.success

  -- Each weight within its bounds.
  pub record InRange (w : Weights F) : Type 0 where
    pub at_least : (d : Dimension) → fle min_weight (weight_at d w) ≡ true
    pub at_most : (d : Dimension) → fle (weight_at d w) max_weight ≡ true

  -- The weights after a shift, if it moves anything, have the bounds and the sum of those before.
  abbrev pub Keeps : Weights F → Option (Weights F) → Type 0
  Keeps w none = Unit
  Keeps w (some v) = InRange v × (total v ≡ total w)

  module _ (laws : IsFloat F) (exact : IsExact F) where
    add_swap : (a b m : F) → add (add a b) m ≡ add (add a m) b
    add_swap a b m =
        exact.add_assoc a b m ∙ ap (add a) (exact.add_comm b m) ∙ sym (exact.add_assoc a m b)

    -- Adding to one weight adds to the sum.
    total-with_weight :
        (d : Dimension) (x m : F) (w : Weights F)
        → total (with_weight d (add x m) w) ≡ add (total (with_weight d x w)) m
    total-with_weight latency x m w =
        rw
          (
            add_swap (add (add x w.cost) w.capability) w.success m,
            add_swap (add x w.cost) w.capability m,
            add_swap x w.cost m,
          )
          refl
    total-with_weight cost x m w =
        rw
          (
            add_swap (add (add w.latency x) w.capability) w.success m,
            add_swap (add w.latency x) w.capability m,
            exact.add_assoc w.latency x m,
          )
          refl
    total-with_weight capability x m w =
        rw
          (
            add_swap (add (add w.latency w.cost) x) w.success m,
            exact.add_assoc (add w.latency w.cost) x m,
          )
          refl
    total-with_weight success x m w =
        sym (exact.add_assoc (add (add w.latency w.cost) w.capability) x m)

    with_weight-same : (d : Dimension) (w : Weights F) → with_weight d (weight_at d w) w ≡ w
    with_weight-same latency w = refl
    with_weight-same cost w = refl
    with_weight-same capability w = refl
    with_weight-same success w = refl

    -- Moving some weight from one dimension to another leaves the sum.
    total-move :
        (best worst : Dimension) (m : F) (w : Weights F)
        → (let lowered = with_weight worst (sub (weight_at worst w) m) w in
            total (with_weight best (add (weight_at best lowered) m) lowered) ≡ total w)
    total-move best worst m w =
        let lowered = with_weight worst (sub (weight_at worst w) m) w in
        total-with_weight best (weight_at best lowered) m lowered
        ∙ ap (λ v. add (total v) m) (with_weight-same best lowered)
        ∙ sym (total-with_weight worst (sub (weight_at worst w) m) m w)
        ∙ ap (λ x. total (with_weight worst x w)) (exact.sub_add (weight_at worst w) m)
        ∙ ap total (with_weight-same worst w)

    weight_at-with_weight :
        (d e : Dimension) (x : F) (w : Weights F)
        → weight_at d (with_weight e x w) ≡ (if dimension_beq d e then x else weight_at d w)
    weight_at-with_weight d e x w = ground arith

    -- Two weights that stay within their bounds as `m` moves between them.
    sub-in_range :
        (a m : F)
        → fle nought m ≡ true
        → fle m (sub a min_weight) ≡ true
        → fle a max_weight ≡ true
        → (fle min_weight (sub a m) ≡ true) × (fle (sub a m) max_weight ≡ true)
    sub-in_range a m h k l = (
      exact.le_sub min_weight a m
          ∙ ap (λ x. fle x a) (exact.add_comm min_weight m)
          ∙ sym (exact.le_sub m a min_weight)
          ∙ k,
      laws.fle_trans (sub a m) a max_weight (laws.sub_shrinks a m h) l,
    )

    add-in_range :
        (b m : F)
        → fle nought m ≡ true
        → fle m (sub max_weight b) ≡ true
        → fle min_weight b ≡ true
        → (fle min_weight (add b m) ≡ true) × (fle (add b m) max_weight ≡ true)
    add-in_range b m h k l = (
      laws.fle_trans min_weight b (add b m) l (laws.add_grows b m h),
      ap (λ x. fle x max_weight) (exact.add_comm b m) ∙ sym (exact.le_sub m max_weight b) ∙ k,
    )

    InRange-with_weight :
        (d : Dimension) (x : F) (w : Weights F)
        → fle min_weight x ≡ true
        → fle x max_weight ≡ true
        → InRange w
        → InRange (with_weight d x w)
    InRange-with_weight d x w h k r = record {
      at_least = λ e. rw (weight_at-with_weight e d x w) (ground (arith, h, r.at_least e));
      at_most = λ e. rw (weight_at-with_weight e d x w) (ground (arith, k, r.at_most e));
    }

    -- The weights after a move, with both parties' bounds.
    abbrev moved : Dimension → Dimension → F → Weights F → Weights F
    moved best worst m w =
        let lowered = with_weight worst (sub (weight_at worst w) m) w in
        with_weight best (add (weight_at best lowered) m) lowered

    moved-InRange :
        (best worst : Dimension) (m : F) (w : Weights F)
        → dimension_beq worst best ≡ false
        → fle nought m ≡ true
        → fle m (sub (weight_at worst w) min_weight) ≡ true
        → fle m (sub max_weight (weight_at best w)) ≡ true
        → InRange w
        → InRange (moved best worst m w)
    moved-InRange best worst m w apart h k l r =
        let x = sub (weight_at worst w) m in
        let lowered = with_weight worst x w in
        let low = sub-in_range (weight_at worst w) m h k (r.at_most worst) in
        let high = add-in_range (weight_at best w) m h l (r.at_least best) in
        let same : weight_at best lowered ≡ weight_at best w =
          weight_at-with_weight best worst x w ∙ ground (arith, apart) in
        InRange-with_weight best (add (weight_at best lowered) m) lowered (rw same high.0)
          (rw same high.1) (InRange-with_weight worst x w low.0 low.1 r)

    shift_weights-Keeps :
        (best worst : Dimension) (step : F) (w : Weights F)
        → dimension_beq worst best ≡ false
        → InRange w
        → Keeps w (shift_weights best worst step w)
    unfolding shift_weights
    shift_weights-Keeps best worst step w apart r =
        let a = sub (weight_at worst w) min_weight in
        let b = sub max_weight (weight_at best w) in
        let m = fmin (fmin step a) b in
        elim (Bool-cases (fle m nought)) [
          | inl still ↦ rw still tt
          | inr moves ↦ rw moves (
            moved-InRange best worst m w apart (laws.fle_total m nought moves)
                (laws.fle_trans m (fmin step a) a (fmin-le laws (fmin step a) b)
                  (fmin-le_right laws step a))
                (fmin-le_right laws (fmin step a) b) r,
            total-move best worst m w,
          )
        ]

    -- The choice between a shift and the rest of the loop.
    Keeps-or_else :
        (w : Weights F) (o rest : Option (Weights F))
        → Keeps w o
        → Keeps w rest
        → Keeps w (elim o [ some w' ↦ some w' | none ↦ rest ])
    Keeps-or_else w none rest h k = k
    Keeps-or_else w (some v) rest h k = h

    try_shifts-Keeps :
        (credit : SubScores F) (best : Dimension) (step : F) (dims : List Dimension) (w : Weights F)
        → InRange w
        → Keeps w (try_shifts credit best step dims w)
    unfolding try_shifts
    try_shifts-Keeps credit best step [] w r = tt
    try_shifts-Keeps credit best step (worst ∷ dims) w r =
        let rest = try_shifts-Keeps credit best step dims w r in
        elim (Bool-cases (
          dimension_beq worst best || fle (sub_score_at best credit) (sub_score_at worst credit))) [
            | inl skip ↦ rw skip rest
            | inr try ↦ rw try (
                Keeps-or_else w (shift_weights best worst step w)
                  (try_shifts credit best step dims w)
                  (shift_weights-Keeps best worst step w (ground (arith, try)) r) rest)
          ]

    Keeps-if :
        (w : Weights F) (c : Bool) (o : Option (Weights F))
        → Keeps w o
        → Keeps w (if c then none else o)
    Keeps-if w true o h = tt
    Keeps-if w false o h = h

    pub rebalance-Keeps :
        (credit : SubScores F) (step : F) (w : Weights F)
        → InRange w
        → Keeps w (rebalance credit step w)
    unfolding rebalance
    rebalance-Keeps credit step w r = Keeps-if w _ _ (try_shifts-Keeps credit _ step _ w r)
