-- ===== src/Router/Feedback/Tests.antt =====
-- The collector on concrete outcomes, in thousandths.
use intelli_route_team.Common.{ℕ, ◌*◌, refl, Bool, true, false, List, [], ◌∷◌, Text}
use intelli_route_team.Common.Unit.{milli, milli-IsFloat, milli-IsUnitFloat}
use intelli_route_team.Router.Feedback.{CompletionOutcome, new_collector, record_all}
use intelli_route_team.Router.Feedback.Bounds.{Knows, record_all-IsBounded}

abbrev fast : Text
fast = 102 ∷ 97 ∷ []

abbrev outcome : ℕ → Bool → CompletionOutcome ℕ
outcome latency ok = record {
  provider = fast;
  latency_ms = latency * 1000;
  success = ok;
  prompt_tokens = 10;
  completion_tokens = 20;
  prompt_char_count = 40;
  response_char_count = 80;
  hallucination_signal = 100;
}

abbrev two_outcomes : List (CompletionOutcome ℕ)
two_outcomes = outcome 120 true ∷ outcome 2500 false ∷ []

record_all-IsBounded_example :
    Knows ⦃fl = milli⦄ fast 2
      (record_all ⦃fl = milli⦄ two_outcomes (new_collector ⦃fl = milli⦄ 300))
record_all-IsBounded_example =
    record_all-IsBounded ⦃fl = milli⦄ milli-IsFloat milli-IsUnitFloat fast two_outcomes 300
      (record { nonneg = refl; le_one = refl })
