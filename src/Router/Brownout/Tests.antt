-- ===== src/Router/Brownout/Tests.antt =====
-- The theorems about brownout at concrete inputs.
use intelli_route_team.Common.{ℕ, ◌≡◌, refl, inl, true, false, [], ◌∷◌, arith}
use intelli_route_team.Common.Float.{nat_float}
use intelli_route_team.Router.Brownout.{BrownoutConfig, new_manager, run_calls}
use intelli_route_team.Router.Brownout.Valid.{IsValid}
use intelli_route_team.Router.Brownout.Hysteresis.{assess_all, overload_enters}

abbrev config : BrownoutConfig ℕ
config = record {
  enabled = true;
  queue_depth_enter = 60;
  queue_depth_exit = 30;
  p95_latency_ms_enter = 1400;
  p95_latency_ms_exit = 900;
  error_rate_enter = 1;
  error_rate_exit = 1;
  timeout_rate_enter = 1;
  timeout_rate_exit = 1;
  sample_window = 50;
  enter_consecutive = 2;
  exit_consecutive = 3;
  block_premium_for_medium_and_low = true;
  prefer_low_latency_for_medium_and_low = true;
  low_latency_max_ms = 700;
  reduce_max_tokens_for_medium_and_low = true;
  degraded_max_tokens = 120;
  drop_low_priority_when_degraded = false;
  delay_low_priority_ms = 0;
}

new_manager-IsValid : IsValid (new_manager config)
new_manager-IsValid = record {
  entered = refl;
  one_streak = inl refl;
  pending = refl;
  latencies = omega arith;
  successes = omega arith;
  timeouts = omega arith;
}

overload_enters_example :
    (run_calls (assess_all ((60, 1) ∷ (75, 2) ∷ [])) (new_manager config)).degraded ≡ true
overload_enters_example =
    overload_enters ((60, 1) ∷ (75, 2) ∷ []) (new_manager config) refl refl (omega arith)
      (omega arith, (omega arith, tt)) (omega arith, (omega arith, tt))
