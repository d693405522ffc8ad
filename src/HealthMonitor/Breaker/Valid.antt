-- ===== src/HealthMonitor/Breaker/Valid.antt =====
-- The invariant of a breaker.
use intelli_route_team.Common.{
  ◌≤◌, ◌<◌, ◌≡◌, ◌⊎◌, true, false, ◌&&◌, leb, List, [], ◌∷◌, arith, length, length-push_bounded,
}
use intelli_route_team.Common.Float.{Float}
use intelli_route_team.HealthMonitor.Breaker.{
  CircuitBreaker, is_closed, half_open, allow_request, record_success, record_failure, Event, ask,
  success, failure, step, run,
}

pub record IsValid {F : Type 0} (b : CircuitBreaker F) : Type 0 where
  pub threshold : 1 ≤ b.config.failure_threshold
  pub required : 1 ≤ b.config.half_open_success_required
  pub window : length b.window ≤ b.config.window_size
  pub below_threshold :
      (is_closed b.state && leb b.config.failure_threshold b.consecutive_failures) ≡ false
  pub probing : b.half_open_successes < b.config.half_open_success_required
  pub idle : (b.state ≡ half_open) ⊎ (b.half_open_successes ≡ 0)

module _ {F : Type 0} ⦃fl : Float F⦄ where
  step-IsValid : (e : Event F) (b : CircuitBreaker F) → IsValid b → IsValid (step e b)
  unfolding step allow_request record_success record_failure
  step-IsValid (ask now) b v = ground arith
  step-IsValid (success now) b v =
      ground (arith, length-push_bounded b.config.window_size b.window true)
  step-IsValid (failure now) b v =
      ground (arith, length-push_bounded b.config.window_size b.window false)

  -- From a valid breaker any requests and outcomes lead to a valid one: the window never passes its
  -- size, a closed breaker has fewer failures in a row than the threshold, and the probes that have
  -- succeeded are fewer than those required, and none outside the half-open state.
  pub run-IsValid : (es : List (Event F)) (b : CircuitBreaker F) → IsValid b → IsValid (run es b)
  unfolding run
  run-IsValid [] b v = v
  run-IsValid (e ∷ es) b v = run-IsValid es (step e b) (step-IsValid e b v)
