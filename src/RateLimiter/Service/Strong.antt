-- ===== src/RateLimiter/Service/Strong.antt =====
-- A follower under strong consistency never decides by itself.
use intelli_route_team.Common.{◌≡◌, ◌⊎◌, true, false, Option, none, some, arith, Text}
use intelli_route_team.Common.Float.{Float}
use intelli_route_team.RateLimiter.Election.{LeaderElection, is_leader}
use intelli_route_team.RateLimiter.Service.{
  RateLimitCheck, RateLimitResult, Service, forward, check,
}

module _ {F : Type 0} ⦃fl : Float F⦄ where
  -- Under strong consistency a replica that is not the leader leaves its buckets and its counts of
  -- decisions alone, and answers with the leader's answer or, if it has none, with a refusal.
  pub follower_never_decides :
      (ask : Text → Option (RateLimitResult F)) (req : RateLimitCheck) (now : F) (v : Service F)
      (e : LeaderElection F)
      → v.election ≡ some e
      → is_leader e ≡ false
      → v.strong_consistency ≡ true
      → let (v', r) = check ask req now v in
        (v'.store ≡ v.store)
        × (v'.total_allowed ≡ v.total_allowed)
        × (v'.total_denied ≡ v.total_denied)
        × ((forward v.has_http ask e ≡ some r)
            ⊎ ((forward v.has_http ask e ≡ none) × (r.allowed ≡ false)))
  unfolding check
  follower_never_decides ask req now v e he hl hs = ground arith
