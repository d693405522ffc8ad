-- ===== src/Router/Tuner.antt =====
-- `WeightTuner` of intelliroute/router/weight_tuner.py, with the weight table of the policy that it
-- changes in place. A dictionary over the four intents or the four dimensions, which each has all of
-- them, is a record or a function of them.
pub mod Weight
pub mod Table
mod Tests
use intelli_route_team.Common.{
  ℕ, ◌+◌, ◌≡◌, ◌↔◌, Bool, true, false, not, ◌&&◌, ◌||◌, Option, none, some, List, [], ◌∷◌, arith,
  Eq, ltb, if◌then◌else◌, all_by,
}
use intelli_route_team.Common.Dict.{Dict, lookup, insert}
use intelli_route_team.Common.Float.{Float, nought, of_ℕ, flt, feq, fmin}
use intelli_route_team.Common.Sort.{sort_by}
use intelli_route_team.Router.Provider.{Intent, intent_eq, SubScores}
use intelli_route_team.Router.Policy.{Weights}

pub data Dimension : Type 0 where
  latency cost capability success : Dimension

-- `_DIMENSIONS`
abbrev pub dimensions : List Dimension
dimensions = latency ∷ cost ∷ capability ∷ success ∷ []

abbrev pub dimension_beq : Dimension → Dimension → Bool
dimension_beq latency latency = true
dimension_beq cost cost = true
dimension_beq capability capability = true
dimension_beq success success = true
dimension_beq _ _ = false

abbrev last_or : Dimension → List Dimension → Dimension
last_or d [] = d
last_or d (e ∷ es) = last_or e es

module _ {F : Type 0} where
  -- `weights` as the dictionary `current`
  abbrev pub weight_at : Dimension → Weights F → F
  weight_at latency w = w.latency
  weight_at cost w = w.cost
  weight_at capability w = w.capability
  weight_at success w = w.success

  abbrev pub with_weight : Dimension → F → Weights F → Weights F
  with_weight latency x w = record w { latency = x }
  with_weight cost x w = record w { cost = x }
  with_weight capability x w = record w { capability = x }
  with_weight success x w = record w { success = x }

  abbrev pub sub_score_at : Dimension → SubScores F → F
  sub_score_at latency s = s.latency
  sub_score_at cost s = s.cost
  sub_score_at capability s = s.capability
  sub_score_at success s = s.success

-- What the tuner has collected of an intent.
pub record Window (F : Type 0) : Type 0 where
  pub samples : ℕ
  pub credit : SubScores F

pub record WeightTuner (F : Type 0) : Type 0 where
  pub step : F
  pub min_samples : ℕ
  pub windows : Dict Intent (Window F)
  pub baseline_weights : Dict Intent (Weights F)

-- The tuner and the policy's table.
pub record Tuned (F : Type 0) : Type 0 where
  pub tuner : WeightTuner F
  pub table : Dict Intent (Weights F)

-- The tuner's methods.
pub data Call (F : Type 0) : Type 0 where
  observed : Intent → SubScores F → Bool → Call F
  rebalanced : Intent → Call F
  was_reset : Bool → Call F

module _ {F : Type 0} ⦃fl : Float F⦄ where
  open fl use {ratio, add, sub, fle}

  abbrev no_credit : SubScores F
  no_credit = record { latency = nought; cost = nought; capability = nought; success = nought }

  abbrev pub no_samples : Window F
  no_samples = record { samples = 0; credit = no_credit }

  -- `_MIN_WEIGHT` and `_MAX_WEIGHT`
  abbrev pub min_weight : F
  min_weight = ratio 5 100

  abbrev pub max_weight : F
  max_weight = ratio 85 100

  -- `WeightTuner(policy, step, min_samples)`
  abbrev pub new_tuner : F → ℕ → Dict Intent (Weights F) → Tuned F
  new_tuner step min_samples table = record {
    tuner = record {
      step = step;
      min_samples = min_samples;
      windows = [];
      baseline_weights = table;
    };
    table = table;
  }

  abbrev or_no_samples : Option (Window F) → Window F
  or_no_samples none = no_samples
  or_no_samples (some w) = w

  -- `self._credit[intent]` and `self._samples[intent]`
  abbrev pub window_of : Intent → WeightTuner F → Window F
  window_of intent t = or_no_samples (lookup intent t.windows)

  abbrev put_window : Intent → Window F → Tuned F → Tuned F
  put_window intent w s = record s {
    tuner = record s.tuner { windows = insert intent w s.tuner.windows };
  }

  -- `credit + sign * score`
  abbrev credited : Bool → F → F → F
  credited good old score = if good then add old score else sub old score

  abbrev credit_all : Bool → SubScores F → SubScores F → SubScores F
  credit_all good old scores = record {
    latency = credited good old.latency scores.latency;
    cost = credited good old.cost scores.cost;
    capability = credited good old.capability scores.capability;
    success = credited good old.success scores.success;
  }

  unfoldable pub observe : Intent → SubScores F → Bool → Tuned F → Tuned F
  observe intent scores good s =
      let w = window_of intent s.tuner in
      put_window intent
        (record { samples = w.samples + 1; credit = credit_all good w.credit scores }) s

  -- `_shift_weights`
  unfoldable pub shift_weights : Dimension → Dimension → F → Weights F → Option (Weights F)
  shift_weights best worst step w =
      let movable =
        fmin (fmin step (sub (weight_at worst w) min_weight)) (sub max_weight (weight_at best w)) in
      if fle movable nought
      then none
      else let lowered = with_weight worst (sub (weight_at worst w) movable) w in
        some (with_weight best (add (weight_at best lowered) movable) lowered)

  -- `sorted(_DIMENSIONS, key=…)`
  abbrev ranked_dims : SubScores F → List Dimension
  ranked_dims credit =
      sort_by (λ a b. flt (sub_score_at a credit) (sub_score_at b credit)) dimensions

  -- The loop over the worst dimensions: the first shift that moves anything.
  unfoldable pub try_shifts :
      SubScores F → Dimension → F → List Dimension → Weights F → Option (Weights F)
  try_shifts credit best step [] w = none
  try_shifts credit best step (worst ∷ dims) w =
      let rest = try_shifts credit best step dims w in
      if dimension_beq worst best || fle (sub_score_at best credit) (sub_score_at worst credit)
      then rest
      else elim (shift_weights best worst step w) [ some w' ↦ some w' | none ↦ rest ]

  -- The weights after a window with the credit, or `none` if they stay.
  unfoldable pub rebalance : SubScores F → F → Weights F → Option (Weights F)
  rebalance credit step w =
      let ranked = ranked_dims credit in
      let best = last_or latency ranked in
      if all_by (λ d. feq (sub_score_at d credit) (sub_score_at best credit)) dimensions
      then none
      else try_shifts credit best step ranked w

  abbrev pub with_table : Intent → Option (Weights F) → Tuned F → Tuned F × Bool
  with_table intent none s = (s, false)
  with_table intent (some w) s = (record s { table = insert intent w s.table }, true)

  unfoldable pub maybe_rebalance : Intent → Tuned F → Tuned F × Bool
  maybe_rebalance intent s =
      let w = window_of intent s.tuner in
      let consumed = put_window intent no_samples s in
      if ltb w.samples s.tuner.min_samples then (s, false) else elim (lookup intent s.table) [
        | none ↦ (consumed, false)
        | some weights ↦ with_table intent (rebalance w.credit s.tuner.step weights) consumed
      ]

  unfoldable pub snapshot : Intent → Tuned F → Window F
  snapshot intent s = window_of intent s.tuner

  -- Each baseline goes to the table's entry, if it has one.
  abbrev restored : Dict Intent (Weights F) → Dict Intent (Weights F) → Dict Intent (Weights F)
  restored [] table = table
  restored ((intent, w) ∷ baseline) table =
      restored baseline
        (elim (lookup intent table) [ some _ ↦ insert intent w table | none ↦ table ])

  unfoldable pub reset : Bool → Tuned F → Tuned F
  reset reset_policy_weights s = record {
    tuner = record s.tuner { windows = [] };
    table = if reset_policy_weights then restored s.tuner.baseline_weights s.table else s.table;
  }

  unfoldable pub perform : Call F → Tuned F → Tuned F
  perform (observed intent scores good) s = observe intent scores good s
  perform (rebalanced intent) s = (maybe_rebalance intent s).0
  perform (was_reset weights) s = reset weights s

  unfoldable pub perform_all : List (Call F) → Tuned F → Tuned F
  unfolding perform
  perform_all [] s = s
  perform_all (c ∷ cs) s = perform_all cs (perform c s)
