-- ===== src/Router/Brownout/Hysteresis.antt =====
-- When a manager turns degraded and when it stays so.
use intelli_route_team.Common.{
  ℕ, ◌+◌, ◌≤◌, ◌<◌, ◌≡◌, refl, ap, ◌∙◌, inl, inr, Bool-cases, true, false, not, List, [], ◌∷◌, map,
  arith, max, length, ltb, All, if◌then◌else◌,
}
use intelli_route_team.Common.Float.{Float}
use intelli_route_team.Router.Brownout.{
  BrownoutConfig, BrownoutManager, new_manager, record_request_result, is_overloaded, react,
  snapshot, evaluate, reset, Call, result, assess, clear, perform, run_calls,
}

module _ {F : Type 0} ⦃fl : Float F⦄ where
  -- No reset, and every evaluation sees a queue deeper than `n`.
  abbrev pub IsBusy : ℕ → List (Call F) → Type 0
  IsBusy n [] = Unit
  IsBusy n (result latency ok late ∷ cs) = IsBusy n cs
  IsBusy n (assess depth now ∷ cs) = (n < depth) × IsBusy n cs
  IsBusy n (clear ∷ cs) = ⊥

  -- A degraded manager that is switched on stays degraded, since the same time, as long as it is
  -- not reset and every evaluation sees a queue deeper than the exit threshold, whatever latencies
  -- and outcomes are recorded meanwhile.
  pub busy_stays_degraded :
      (cs : List (Call F)) (m : BrownoutManager F)
      → m.config.enabled ≡ true
      → m.degraded ≡ true
      → IsBusy m.config.queue_depth_exit cs
      → ((run_calls cs m).degraded ≡ true)
        × ((run_calls cs m).entered_at_unix ≡ m.entered_at_unix)
        × ((run_calls cs m).config ≡ m.config)
  unfolding run_calls perform record_request_result evaluate is_overloaded react
  busy_stays_degraded [] m e d b = (d, refl, refl)
  busy_stays_degraded (result latency ok late ∷ cs) m e d b =
      busy_stays_degraded cs (record_request_result latency ok late m) e d b
  busy_stays_degraded (assess depth now ∷ cs) m e d b =
      ground (arith, b, busy_stays_degraded cs (evaluate depth now m).0)
  busy_stays_degraded (clear ∷ cs) m e d b = absurd b

  -- The evaluations of a list of depths and times.
  abbrev pub assess_all : List (ℕ × F) → List (Call F)
  assess_all = map (λ d. assess d.0 d.1)

  IsBusy-assess_all : (n : ℕ) (ds : List (ℕ × F)) → All (λ d. n < d.0) ds → IsBusy n (assess_all ds)
  IsBusy-assess_all n [] h = tt
  IsBusy-assess_all n (d ∷ ds) h = (h.0, IsBusy-assess_all n ds h.1)

  overload_step :
      (depth : ℕ) (now : F) (m : BrownoutManager F)
      → m.config.enabled ≡ true
      → m.degraded ≡ false
      → m.config.queue_depth_enter ≤ depth
      → let m' = (evaluate depth now m).0 in
        (m'.config ≡ m.config)
        × (m'.enter_streak ≡ m.enter_streak + 1)
        × (m'.degraded ≡ not (ltb (m.enter_streak + 1) (max 1 m.config.enter_consecutive)))
  unfolding evaluate is_overloaded react
  overload_step depth now m e d k = ground arith

  -- From a manager that is switched on, not degraded and below the streak required, evaluations in
  -- a row that all see a queue at the entry threshold and above the exit threshold degrade it
  -- exactly when they bring the streak up to the number required (at least one).
  pub overload_enters :
      (ds : List (ℕ × F)) (m : BrownoutManager F)
      → m.config.enabled ≡ true
      → m.degraded ≡ false
      → m.enter_streak < max 1 m.config.enter_consecutive
      → All (λ d. m.config.queue_depth_enter ≤ d.0) ds
      → All (λ d. m.config.queue_depth_exit < d.0) ds
      → (run_calls (assess_all ds) m).degraded
        ≡ not (ltb (m.enter_streak + length ds) (max 1 m.config.enter_consecutive))
  unfolding run_calls perform
  overload_enters [] m e d h k l = ground arith
  overload_enters ((depth, now) ∷ ds) m e d h k l =
      let m' = (evaluate depth now m).0 in
      let (same_config, streak, turned) = overload_step depth now m e d k.0 in
      let n = length ds in
      elim (Bool-cases m'.degraded) [
        | inl on ↦
            (busy_stays_degraded (assess_all ds) m' (ap (λ c. c.enabled) same_config ∙ e) on
              (rw same_config (IsBusy-assess_all m.config.queue_depth_exit ds l.1))).0
            ∙ ground (arith, on, turned)
        | inr off ↦
            overload_enters ds m' (ap (λ c. c.enabled) same_config ∙ e) off
              (rw (streak, same_config) (ground (arith, off, turned))) (rw same_config k.1)
              (rw same_config l.1)
            ∙ rw (streak, same_config) (ground arith)
      ]

  -- An evaluation reports a transition exactly when it changes the state, and its snapshot shows the
  -- new state.
  pub evaluate_reports :
      (depth : ℕ) (now : F) (m : BrownoutManager F)
      → let (m', seen, changed) = evaluate depth now m in
        (changed ≡ (if m.degraded then not m'.degraded else m'.degraded))
        × (seen.is_degraded ≡ m'.degraded)
        × (seen.entered_at_unix ≡ m'.entered_at_unix)
        × (seen.queue_depth ≡ depth)
  unfolding evaluate react snapshot
  evaluate_reports depth now m = ground arith

  disabled_from :
      (cs : List (Call F)) (m : BrownoutManager F)
      → m.config.enabled ≡ false
      → m.degraded ≡ false
      → (run_calls cs m).degraded ≡ false
  unfolding run_calls perform record_request_result evaluate is_overloaded react reset
  disabled_from [] m e d = d
  disabled_from (result latency ok late ∷ cs) m e d =
      disabled_from cs (record_request_result latency ok late m) e d
  disabled_from (assess depth now ∷ cs) m e d =
      ground (arith, disabled_from cs (evaluate depth now m).0)
  disabled_from (clear ∷ cs) m e d = disabled_from cs (reset m) e refl

  -- A manager that is switched off is never degraded, whatever it is told from its start on.
  pub disabled_never_degrades :
      (cs : List (Call F)) (c : BrownoutConfig F)
      → c.enabled ≡ false
      → (run_calls cs (new_manager c)).degraded ≡ false
  disabled_never_degrades cs c e = disabled_from cs (new_manager c) e refl
