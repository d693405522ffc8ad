-- ===== src/HealthMonitor/Breaker.antt =====
-- `CircuitBreaker` of intelliroute/health_monitor/circuit_breaker.py. The lock makes each method
-- one step; the time is an argument.
pub mod Valid
pub mod History
pub mod Trips
use intelli_route_team.Common.{
  ℕ, ◌+◌, Bool, true, false, not, ◌&&◌, List, [], ◌∷◌, ◌++◌, leb, length, count_by, push_bounded,
  if◌then◌else◌,
}
use intelli_route_team.Common.Float.{Float, nought, of_ℕ}

pub data CircuitState : Type 0 where
  closed open_ half_open : CircuitState

pub record CircuitBreakerConfig (F : Type 0) : Type 0 where
  pub failure_threshold : ℕ
  pub open_duration_s : F
  pub half_open_success_required : ℕ
  pub window_size : ℕ

pub record CircuitBreaker (F : Type 0) : Type 0 where
  pub config : CircuitBreakerConfig F
  pub state : CircuitState
  pub consecutive_failures : ℕ
  pub half_open_successes : ℕ
  pub opened_at : F
  pub window : List Bool

abbrev pub is_closed : CircuitState → Bool
is_closed closed = true
is_closed _ = false

abbrev pub is_open : CircuitState → Bool
is_open open_ = true
is_open _ = false

abbrev pub is_half_open : CircuitState → Bool
is_half_open half_open = true
is_half_open _ = false

module _ {F : Type 0} ⦃fl : Float F⦄ where
  open fl use {sub, fle, div}

  -- `CircuitBreaker(config=…)`
  abbrev pub new_breaker : CircuitBreakerConfig F → CircuitBreaker F
  new_breaker c = record {
    config = c;
    state = closed;
    consecutive_failures = 0;
    half_open_successes = 0;
    opened_at = nought;
    window = [];
  }

  abbrev pub cooled_down : F → CircuitBreaker F → Bool
  cooled_down now b = fle b.config.open_duration_s (sub now b.opened_at)

  unfoldable pub allow_request : F → CircuitBreaker F → CircuitBreaker F × Bool
  allow_request now b = elim b.state [
    | closed ↦ (b, true)
    | open_ ↦
        if cooled_down now b
        then (record b { state = half_open; half_open_successes = 0 }, true)
        else (b, false)
    | half_open ↦ (b, true)
  ]

  abbrev probe_succeeded : CircuitBreaker F → CircuitBreaker F
  probe_succeeded b =
      let n = b.half_open_successes + 1 in
      if leb b.config.half_open_success_required n
      then record b { state = closed; half_open_successes = 0 }
      else record b { half_open_successes = n }

  -- The clock is read and not used.
  unfoldable pub record_success : CircuitBreaker F → CircuitBreaker F
  record_success b =
      let b' = record b {
        window = push_bounded b.config.window_size b.window true;
        consecutive_failures = 0;
      } in
      if is_half_open b.state then probe_succeeded b' else b'

  unfoldable pub record_failure : F → CircuitBreaker F → CircuitBreaker F
  record_failure now b =
      let b' = record b {
        window = push_bounded b.config.window_size b.window false;
        consecutive_failures = b.consecutive_failures + 1;
      } in
      if is_half_open b.state
      then record b' { state = open_; opened_at = now; half_open_successes = 0 }
      else if is_closed b.state && leb b.config.failure_threshold b'.consecutive_failures
      then record b' { state = open_; opened_at = now }
      else b'

  unfoldable pub error_rate : CircuitBreaker F → F
  error_rate b = elim b.window [
    | [] ↦ nought
    | x ∷ xs ↦ div (of_ℕ (count_by not (x ∷ xs))) (of_ℕ (length (x ∷ xs)))
  ]

-- What happens to a breaker, with the time: a request asks, an outcome is reported.
pub data Event (F : Type 0) : Type 0 where
  ask : F → Event F
  success : F → Event F
  failure : F → Event F

module _ {F : Type 0} ⦃fl : Float F⦄ where
  pub step : Event F → CircuitBreaker F → CircuitBreaker F
  step (ask now) b = (allow_request now b).0
  step (success now) b = record_success b
  step (failure now) b = record_failure now b

  pub run : List (Event F) → CircuitBreaker F → CircuitBreaker F
  run [] b = b
  run (e ∷ es) b = run es (step e b)

-- The outcomes among the events.
abbrev pub outcomes : {F : Type 0} → List (Event F) → List Bool
outcomes [] = []
outcomes (ask now ∷ es) = outcomes es
outcomes (success now ∷ es) = true ∷ outcomes es
outcomes (failure now ∷ es) = false ∷ outcomes es
