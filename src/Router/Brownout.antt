-- ===== src/Router/Brownout.antt =====
-- `BrownoutManager` of intelliroute/router/brownout.py. The lock makes each method one step; the
-- reading of `time.time()` is an argument.
pub mod Valid
pub mod Hysteresis
mod Tests
use intelli_route_team.Common.{
  ℕ, zero, suc, ◌+◌, ◌-◌, Bool, true, false, not, ◌&&◌, Option, none, some, List, [], ◌∷◌, leb, ltb,
  max, length, count_by, push_bounded, if◌then◌else◌,
}
use intelli_route_team.Common.Float.{Float, nought, of_ℕ, flt, fmax, fmin}
use intelli_route_team.Common.Sort.{sort_by}

pub record BrownoutConfig (F : Type 0) : Type 0 where
  pub enabled : Bool
  pub queue_depth_enter : ℕ
  pub queue_depth_exit : ℕ
  pub p95_latency_ms_enter : F
  pub p95_latency_ms_exit : F
  pub error_rate_enter : F
  pub error_rate_exit : F
  pub timeout_rate_enter : F
  pub timeout_rate_exit : F
  pub sample_window : ℕ
  pub enter_consecutive : ℕ
  pub exit_consecutive : ℕ
  pub block_premium_for_medium_and_low : Bool
  pub prefer_low_latency_for_medium_and_low : Bool
  pub low_latency_max_ms : ℕ
  pub reduce_max_tokens_for_medium_and_low : Bool
  pub degraded_max_tokens : ℕ
  pub drop_low_priority_when_degraded : Bool
  pub delay_low_priority_ms : ℕ

-- The reasons as the source's strings; `unset` is the empty one.
pub data Reason : Type 0 where
  unset disabled healthy by_queue_depth by_latency_p95 by_error_rate by_timeout_rate : Reason

pub record BrownoutSnapshot (F : Type 0) : Type 0 where
  pub is_degraded : Bool
  pub reason : Reason
  pub entered_at_unix : Option F
  pub queue_depth : ℕ
  pub p95_latency_ms : F
  pub error_rate : F
  pub timeout_rate : F

pub record BrownoutManager (F : Type 0) : Type 0 where
  pub config : BrownoutConfig F
  pub degraded : Bool
  pub reason : Reason
  pub entered_at_unix : Option F
  pub enter_streak : ℕ
  pub exit_streak : ℕ
  pub latencies_ms : List F
  pub successes : List Bool
  pub timeouts : List Bool
  pub queue_depth : ℕ

pub record BrownoutMetrics (F : Type 0) : Type 0 where
  pub sample_count : ℕ
  pub p50_latency_ms : F
  pub p95_latency_ms : F
  pub error_rate : F
  pub timeout_rate : F

module _ {F : Type 0} ⦃fl : Float F⦄ where
  open fl use {ratio, mul, div, fle, round_to, round_int}

  abbrev pub new_manager : BrownoutConfig F → BrownoutManager F
  new_manager config = record {
    config = config;
    degraded = false;
    reason = unset;
    entered_at_unix = none;
    enter_streak = 0;
    exit_streak = 0;
    latencies_ms = [];
    successes = [];
    timeouts = [];
    queue_depth = 0;
  }

  -- The `maxlen` of the three windows.
  abbrev pub window_size : BrownoutManager F → ℕ
  window_size m = max 5 m.config.sample_window

  unfoldable pub record_request_result : F → Bool → Bool → BrownoutManager F → BrownoutManager F
  record_request_result latency_ms success timed_out m = record m {
    latencies_ms =
        if flt nought latency_ms
        then push_bounded (window_size m) m.latencies_ms latency_ms
        else m.latencies_ms;
    successes = push_bounded (window_size m) m.successes success;
    timeouts = push_bounded (window_size m) m.timeouts timed_out;
  }

  -- `vals[idx]`; the index that is asked for is never past the end.
  abbrev item_at : ℕ → List F → F
  item_at n [] = nought
  item_at zero (x ∷ xs) = x
  item_at (suc n) (x ∷ xs) = item_at n xs

  -- `_percentile_locked`
  unfoldable pub percentile : F → BrownoutManager F → F
  percentile q m =
      let vals = sort_by flt m.latencies_ms in
      let q' = fmin (of_ℕ 1) (fmax nought q) in
      item_at (round_int (mul q' (of_ℕ (length vals - 1)))) vals

  abbrev pub p95_latency : BrownoutManager F → F
  p95_latency = percentile (ratio 95 100)

  -- `_error_rate_locked`
  unfoldable pub error_rate : BrownoutManager F → F
  error_rate m = elim m.successes [
    | [] ↦ nought
    | x ∷ xs ↦ div (of_ℕ (count_by not (x ∷ xs))) (of_ℕ (length (x ∷ xs)))
  ]

  -- `_timeout_rate_locked`
  unfoldable pub timeout_rate : BrownoutManager F → F
  timeout_rate m = elim m.timeouts [
    | [] ↦ nought
    | x ∷ xs ↦ div (of_ℕ (count_by (λ t. t) (x ∷ xs))) (of_ℕ (length (x ∷ xs)))
  ]

  -- `_is_overloaded_locked` while degraded
  abbrev still_overloaded : F → F → F → BrownoutManager F → Bool × Reason
  still_overloaded p95 err to_rate m =
      if ltb m.config.queue_depth_exit m.queue_depth
      then (true, by_queue_depth)
      else if flt m.config.p95_latency_ms_exit p95
      then (true, by_latency_p95)
      else if flt m.config.error_rate_exit err
      then (true, by_error_rate)
      else if flt m.config.timeout_rate_exit to_rate
      then (true, by_timeout_rate)
      else (false, healthy)

  -- `_is_overloaded_locked` while not degraded
  abbrev newly_overloaded : F → F → F → BrownoutManager F → Bool × Reason
  newly_overloaded p95 err to_rate m =
      if leb m.config.queue_depth_enter m.queue_depth
      then (true, by_queue_depth)
      else if fle m.config.p95_latency_ms_enter p95
      then (true, by_latency_p95)
      else if fle m.config.error_rate_enter err
      then (true, by_error_rate)
      else if fle m.config.timeout_rate_enter to_rate
      then (true, by_timeout_rate)
      else (false, healthy)

  -- `_is_overloaded_locked`
  unfoldable pub is_overloaded : F → F → F → BrownoutManager F → Bool × Reason
  is_overloaded p95 err to_rate m =
      if not m.config.enabled
      then (false, disabled)
      else if m.degraded
      then still_overloaded p95 err to_rate m
      else newly_overloaded p95 err to_rate m

  -- The two branches of `evaluate`, with the verdict; the Boolean is `changed`.
  unfoldable pub react : Bool → Reason → F → BrownoutManager F → BrownoutManager F × Bool
  react true reason now m =
      let m' = record m { enter_streak = m.enter_streak + 1; exit_streak = 0 } in
      if not m.degraded && leb (max 1 m.config.enter_consecutive) m'.enter_streak
      then (record m' { degraded = true; reason = reason; entered_at_unix = some now }, true)
      else (if m.degraded then record m' { reason = reason } else m', false)
  react false reason now m =
      let m' = record m { exit_streak = m.exit_streak + 1; enter_streak = 0 } in
      if m.degraded && leb (max 1 m.config.exit_consecutive) m'.exit_streak
      then (record m' { degraded = false; reason = healthy; entered_at_unix = none }, true)
      else (m', false)

  unfoldable pub snapshot : BrownoutManager F → BrownoutSnapshot F
  snapshot m = record {
    is_degraded = m.degraded;
    reason = if m.degraded then m.reason else healthy;
    entered_at_unix = m.entered_at_unix;
    queue_depth = m.queue_depth;
    p95_latency_ms = round_to 2 (p95_latency m);
    error_rate = round_to 4 (error_rate m);
    timeout_rate = round_to 4 (timeout_rate m);
  }

  -- `evaluate` at the time `now`
  unfoldable pub evaluate :
      ℕ → F → BrownoutManager F → BrownoutManager F × BrownoutSnapshot F × Bool
  evaluate depth now m =
      let m' = record m { queue_depth = depth } in
      let verdict = is_overloaded (p95_latency m') (error_rate m') (timeout_rate m') m' in
      let (m'', changed) = react verdict.0 verdict.1 now m' in (m'', snapshot m'', changed)

  unfoldable pub metrics : BrownoutManager F → BrownoutMetrics F
  metrics m = record {
    sample_count = length m.latencies_ms;
    p50_latency_ms = round_to 2 (percentile (ratio 50 100) m);
    p95_latency_ms = round_to 2 (p95_latency m);
    error_rate = round_to 4 (error_rate m);
    timeout_rate = round_to 4 (timeout_rate m);
  }

  unfoldable pub reset : BrownoutManager F → BrownoutManager F
  reset m = new_manager m.config

-- What the router does with a manager, with the time.
pub data Call (F : Type 0) : Type 0 where
  result : F → Bool → Bool → Call F
  assess : ℕ → F → Call F
  clear : Call F

module _ {F : Type 0} ⦃fl : Float F⦄ where
  unfoldable pub perform : Call F → BrownoutManager F → BrownoutManager F
  perform (result latency ok late) m = record_request_result latency ok late m
  perform (assess depth now) m = (evaluate depth now m).0
  perform clear m = reset m

  unfoldable pub run_calls : List (Call F) → BrownoutManager F → BrownoutManager F
  run_calls [] m = m
  run_calls (c ∷ cs) m = run_calls cs (perform c m)
