-- ===== src/Router/Tuner/Tests.antt =====
-- The tuner on the program's weights, in hundredths.
use intelli_route_team.Common.{refl, true, false, List, [], ◌∷◌, arith}
use intelli_route_team.Common.Int.{ℤ, pos}
use intelli_route_team.Common.Float.{hundredths, hundredths-IsFloat, hundredths-IsExact}
use intelli_route_team.Router.Provider.{batch, SubScores}
use intelli_route_team.Router.Policy.{Weights}
use intelli_route_team.Router.Tuner.{Call, observed, rebalanced, new_tuner, perform_all}
use intelli_route_team.Router.Tuner.Weight.{InRange}
use intelli_route_team.Router.Tuner.Table.{TracksTable, perform_all-IsTuned}

abbrev scores : SubScores ℤ
scores = record { latency = pos 10; cost = pos 90; capability = pos 40; success = pos 80 }

abbrev weights : Weights ℤ
weights = record { latency = pos 5; cost = pos 65; capability = pos 15; success = pos 15 }

abbrev calls : List (Call ℤ)
calls =
    observed batch scores true
    ∷ observed batch scores false
    ∷ observed batch scores true
    ∷ rebalanced batch
    ∷ []

weights-InRange : InRange ⦃fl = hundredths⦄ weights
weights-InRange = record { at_least = λ d. ground arith; at_most = λ d. ground arith }

perform_all-IsTuned_example :
    TracksTable ⦃fl = hundredths⦄
      ((batch, weights) ∷ [])
      (perform_all ⦃fl = hundredths⦄ calls
        (new_tuner ⦃fl = hundredths⦄ (pos 5) 3 ((batch, weights) ∷ []))).table
perform_all-IsTuned_example =
    perform_all-IsTuned ⦃fl = hundredths⦄ hundredths-IsFloat hundredths-IsExact
      ((batch, weights) ∷ []) (pos 5) 3 calls ((refl, weights-InRange), tt)
