-- ===== src/Router/Brownout/Valid.antt =====
-- The invariant of a brownout manager.
use intelli_route_team.Common.{
  ◌≤◌, ◌≡◌, ◌⊎◌, Bool, true, false, List, [], ◌∷◌, arith, max, length, ltb, length-push_bounded,
  if◌then◌else◌,
}
use intelli_route_team.Common.Dict.{is_some}
use intelli_route_team.Common.Float.{Float}
use intelli_route_team.Router.Brownout.{
  BrownoutManager, Reason, window_size, record_request_result, react, evaluate, reset, Call, result,
  assess, clear, perform, run_calls,
}

module _ {F : Type 0} ⦃fl : Float F⦄ where
  pub record IsValid (m : BrownoutManager F) : Type 0 where
    pub entered : is_some m.entered_at_unix ≡ m.degraded
    pub one_streak : (m.enter_streak ≡ 0) ⊎ (m.exit_streak ≡ 0)
    pub pending :
        (if m.degraded
          then ltb m.exit_streak (max 1 m.config.exit_consecutive)
          else ltb m.enter_streak (max 1 m.config.enter_consecutive))
        ≡ true
    pub latencies : length m.latencies_ms ≤ window_size m
    pub successes : length m.successes ≤ window_size m
    pub timeouts : length m.timeouts ≤ window_size m

  react-IsValid :
      (o : Bool) (r : Reason) (now : F) (m : BrownoutManager F)
      → IsValid m
      → IsValid (react o r now m).0
  unfolding react
  react-IsValid true r now m v = ground arith
  react-IsValid false r now m v = ground arith

  perform-IsValid : (c : Call F) (m : BrownoutManager F) → IsValid m → IsValid (perform c m)
  unfolding perform record_request_result evaluate reset
  perform-IsValid (result latency ok late) m v = ground (
    arith,
    length-push_bounded (window_size m) m.latencies_ms latency v.latencies,
    length-push_bounded (window_size m) m.successes ok v.successes,
    length-push_bounded (window_size m) m.timeouts late v.timeouts,
  )
  perform-IsValid (assess depth now) m v =
      react-IsValid _ _ now (record m { queue_depth = depth })
        (record {
          entered = v.entered;
          one_streak = v.one_streak;
          pending = v.pending;
          latencies = v.latencies;
          successes = v.successes;
          timeouts = v.timeouts;
        })
  perform-IsValid clear m v = ground arith

  -- Any results, evaluations and resets keep a manager valid: it has a time of entry exactly while
  -- degraded, only one of its two streaks is above 0, the streak that would change its state is below
  -- the number required, and no window passes its size.
  pub run_calls-IsValid :
      (cs : List (Call F)) (m : BrownoutManager F) → IsValid m → IsValid (run_calls cs m)
  unfolding run_calls
  run_calls-IsValid [] m v = v
  run_calls-IsValid (c ∷ cs) m v = run_calls-IsValid cs (perform c m) (perform-IsValid c m v)
