-- ===== src/HealthMonitor/Tests.antt =====
-- The theorems about the health monitor at concrete inputs, and runs of its code.
use intelli_route_team.Common.{
  ℕ, ◌≡◌, refl, inr, true, false, List, [], ◌∷◌, map, arith, Text, text_eq,
}
use intelli_route_team.Common.Strings.{text}
use intelli_route_team.Common.Float.{nat_float}
use intelli_route_team.HealthMonitor.Breaker.{
  CircuitBreakerConfig, CircuitBreaker, open_, half_open, new_breaker, allow_request, Event, ask,
  success, failure, run,
}
use intelli_route_team.HealthMonitor.Breaker.Valid.{IsValid}
use intelli_route_team.HealthMonitor.Breaker.History.{run-history}
use intelli_route_team.HealthMonitor.Breaker.Trips.{open_refuses, failures_trip}
use intelli_route_team.HealthMonitor.Monitor.{HealthMonitor}

abbrev config : CircuitBreakerConfig ℕ
config = record {
  failure_threshold = 3;
  open_duration_s = 10;
  half_open_success_required = 2;
  window_size = 4;
}

abbrev opened : CircuitBreaker ℕ
opened = record {
  config = config;
  state = open_;
  consecutive_failures = 3;
  half_open_successes = 0;
  opened_at = 50;
  window = true ∷ false ∷ false ∷ false ∷ [];
}

abbrev probing : CircuitBreaker ℕ
probing = record opened { state = half_open }

abbrev probed : CircuitBreaker ℕ
probed = record probing { half_open_successes = 1 }

abbrev events : List (Event ℕ)
events = failure 1 ∷ failure 2 ∷ success 3 ∷ failure 4 ∷ failure 5 ∷ failure 6 ∷ ask 17 ∷ []

new_breaker-IsValid : IsValid (new_breaker config)
new_breaker-IsValid = record {
  threshold = omega arith;
  required = omega arith;
  window = omega arith;
  below_threshold = refl;
  probing = omega arith;
  idle = inr refl;
}

run-history_example :
    let b = run events (new_breaker config) in
    (b.window ≡ true ∷ false ∷ false ∷ false ∷ []) × (b.consecutive_failures ≡ 3)
run-history_example = run-history config events

open_refuses_example :
    allow_request 59 (run (ask 55 ∷ failure 56 ∷ success 57 ∷ []) opened)
    ≡ (run (ask 55 ∷ failure 56 ∷ success 57 ∷ []) opened, false)
open_refuses_example =
    open_refuses (ask 55 ∷ failure 56 ∷ success 57 ∷ []) 59 opened refl (refl, tt) refl

failures_trip_example : (run (map failure (1 ∷ 2 ∷ 3 ∷ [])) (new_breaker config)).state ≡ open_
failures_trip_example = failures_trip (1 ∷ 2 ∷ 3 ∷ []) (new_breaker config) refl (omega arith)

abbrev groq : Text
groq = text "groq"

abbrev monitor : HealthMonitor ℕ
monitor = record {
  breakers = (groq, opened) ∷ (text "gemini", probed) ∷ [];
  config = config;
  provider_urls = [];
  total_reports = 7;
}
