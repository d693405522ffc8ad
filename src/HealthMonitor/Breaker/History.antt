-- ===== src/HealthMonitor/Breaker/History.antt =====
-- The window and the count of failures as functions of the outcomes reported.
use mathlib.Core.List.{append-nil, append_assoc}
use intelli_route_team.Common.{
  ℕ, ◌+◌, ◌≡◌, refl, Bool, true, false, List, [], ◌∷◌, ◌++◌, arith, last_n, push_bounded-last_n,
  if◌then◌else◌,
}
use intelli_route_team.Common.Float.{Float}
use intelli_route_team.HealthMonitor.Breaker.{
  CircuitBreakerConfig, CircuitBreaker, new_breaker, allow_request, record_success, record_failure,
  Event, ask, success, failure, step, run, outcomes,
}

-- The failures at the end of a history.
abbrev pub trailing_from : ℕ → List Bool → ℕ
trailing_from n [] = n
trailing_from n (ok ∷ h) = trailing_from (if ok then 0 else n + 1) h

abbrev pub trailing_failures : List Bool → ℕ
trailing_failures = trailing_from 0

trailing_from-append :
    (n : ℕ) (h k : List Bool) → trailing_from n (h ++ k) ≡ trailing_from (trailing_from n h) k
trailing_from-append n [] k = refl
trailing_from-append n (ok ∷ h) k = trailing_from-append (if ok then 0 else n + 1) h k

module _ {F : Type 0} ⦃fl : Float F⦄ where
  -- The breaker remembers the history `h`.
  pub record Remembers (c : CircuitBreakerConfig F) (h : List Bool) (b : CircuitBreaker F)
      : Type 0 where
    pub config : b.config ≡ c
    pub window : b.window ≡ last_n c.window_size h
    pub failures : b.consecutive_failures ≡ trailing_failures h

  success-Remembers :
      (c : CircuitBreakerConfig F) (h : List Bool) (b : CircuitBreaker F)
      → Remembers c h b
      → Remembers c (h ++ (true ∷ [])) (record_success b)
  unfolding record_success
  success-Remembers c h b m =
      ground (arith, push_bounded-last_n c.window_size h true, trailing_from-append 0 h (true ∷ []))

  failure-Remembers :
      (c : CircuitBreakerConfig F) (h : List Bool) (now : F) (b : CircuitBreaker F)
      → Remembers c h b
      → Remembers c (h ++ (false ∷ [])) (record_failure now b)
  unfolding record_failure
  failure-Remembers c h now b m =
      ground
        (arith, push_bounded-last_n c.window_size h false, trailing_from-append 0 h (false ∷ []))

  ask-Remembers :
      (c : CircuitBreakerConfig F) (h : List Bool) (now : F) (b : CircuitBreaker F)
      → Remembers c h b
      → Remembers c h (allow_request now b).0
  unfolding allow_request
  ask-Remembers c h now b m = ground arith

  run-Remembers :
      (c : CircuitBreakerConfig F) (es : List (Event F)) (h : List Bool) (b : CircuitBreaker F)
      → Remembers c h b
      → Remembers c (h ++ outcomes es) (run es b)
  unfolding run step
  run-Remembers c [] h b m = rw append-nil m
  run-Remembers c (ask now ∷ es) h b m =
      run-Remembers c es h (allow_request now b).0 (ask-Remembers c h now b m)
  run-Remembers c (success now ∷ es) h b m =
      rw (← append_assoc h (true ∷ []) (outcomes es))
        (run-Remembers c es (h ++ (true ∷ [])) (record_success b) (success-Remembers c h b m))
  run-Remembers c (failure now ∷ es) h b m = rw (← append_assoc h (false ∷ []) (outcomes es)) (
      run-Remembers c es (h ++ (false ∷ [])) (record_failure now b) (failure-Remembers c h now b m))

  -- After any events a new breaker's window holds the newest `window_size` outcomes of all that were
  -- reported, in order, and its count of failures is that of the failures since the last success,
  -- whatever states it went through.
  pub run-history :
      (c : CircuitBreakerConfig F) (es : List (Event F))
      → let b = run es (new_breaker c) in
        (b.window ≡ last_n c.window_size (outcomes es))
        × (b.consecutive_failures ≡ trailing_failures (outcomes es))
  run-history c es =
      let m =
        run-Remembers c es [] (new_breaker c)
          (record { config = refl; window = ground arith; failures = refl }) in
      (m.window, m.failures)
