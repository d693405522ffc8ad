-- ===== src/RateLimiter/Service/Counters.antt =====
-- The counters and the replication log tell one story.
use intelli_route_team.Common.{
  ℕ, ◌+◌, ◌≤◌, ◌≡◌, Option, List, [], ◌∷◌, arith, Text, length, length-append,
}
use intelli_route_team.Common.Float.{Float}
use intelli_route_team.RateLimiter.Store.{try_consume}
use intelli_route_team.RateLimiter.Service.{
  RateLimitCheck, RateLimitResult, Service, decide_locally, check,
}

module _ {F : Type 0} ⦃fl : Float F⦄ where
  -- Checks one after another, each with the leader's answers and the time.
  pub check_all :
      List ((Text → Option (RateLimitResult F)) × RateLimitCheck × F) → Service F → Service F
  check_all [] v = v
  check_all ((ask, req, now) ∷ cs) v = check_all cs (check ask req now v).0

  -- Of the checks so far, those decided here number at most all of them, and each left one entry in
  -- the log, which held `old` entries at first.
  pub record IsCounted (old : ℕ) (v : Service F) : Type 0 where
    pub bounded : v.total_allowed + v.total_denied ≤ v.total_checks
    pub logged : length v.store.log ≡ old + v.total_allowed + v.total_denied

  decide_locally-IsCounted :
      (old : ℕ) (req : RateLimitCheck) (now : F) (v : Service F)
      → v.total_allowed + v.total_denied + 1 ≤ v.total_checks
      → length v.store.log ≡ old + v.total_allowed + v.total_denied
      → IsCounted old (decide_locally req now v).0
  unfolding decide_locally try_consume
  decide_locally-IsCounted old req now v h k = grind (arith, length-append)

  check-IsCounted :
      (old : ℕ) (ask : Text → Option (RateLimitResult F)) (req : RateLimitCheck) (now : F)
      (v : Service F)
      → IsCounted old v
      → IsCounted old (check ask req now v).0
  unfolding check
  check-IsCounted old ask req now v h =
      ground (
        arith,
        decide_locally-IsCounted old req now (record v { total_checks = v.total_checks + 1 }),
      )

  -- Any checks keep the counters of a service in step: the decisions counted as allowed or denied
  -- are at most the checks received, and the replication log has exactly one entry for each of
  -- them beyond the `old` ones that it had.
  pub check_all-IsCounted :
      (cs : List ((Text → Option (RateLimitResult F)) × RateLimitCheck × F)) (old : ℕ)
      (v : Service F)
      → IsCounted old v
      → IsCounted old (check_all cs v)
  unfolding check_all
  check_all-IsCounted [] old v h = h
  check_all-IsCounted ((ask, req, now) ∷ cs) old v h =
      check_all-IsCounted cs old (check ask req now v).0 (check-IsCounted old ask req now v h)
