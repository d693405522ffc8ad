-- ===== src/RateLimiter/Service.antt =====
-- `/check` and `/stats` of intelliroute/rate_limiter/main.py. The answer of the leader's own
-- `/check` is an argument: `none` stands for an exception, a status other than 200, or a body that
-- is no result.
pub mod Strong
pub mod Counters
pub mod Setup
pub mod Endpoints
pub mod Failover
pub mod Takeover
mod Tests
use intelli_route_team.Common.{
  ℕ, ◌+◌, ◌<◌, Bool, true, false, not, ◌&&◌, Option, none, some, List, [], ◌∷◌, Text, text_eq, ◌==◌,
  if◌then◌else◌, length, ltb,
}
use intelli_route_team.Common.Dict.{Dict}
use intelli_route_team.Common.Float.{Float, nought, of_ℕ}
use intelli_route_team.RateLimiter.Bucket.{Decision}
use intelli_route_team.RateLimiter.Key.{pair_key}
use intelli_route_team.RateLimiter.Store.{RateLimiterStore, try_consume}
use intelli_route_team.RateLimiter.Election.{Peer, LeaderElection, is_leader, is_empty}

pub record RateLimitCheck : Type 0 where
  pub tenant_id : Text
  pub provider : Text
  pub tokens_requested : ℕ

pub record RateLimitResult (F : Type 0) : Type 0 where
  pub allowed : Bool
  pub remaining : F
  pub retry_after_ms : ℕ
  pub leader_replica : Option Text

-- The globals of the module.
pub record Service (F : Type 0) : Type 0 where
  pub store : RateLimiterStore F
  pub election : Option (LeaderElection F)
  pub has_http : Bool
  pub strong_consistency : Bool
  pub total_checks : ℕ
  pub total_allowed : ℕ
  pub total_denied : ℕ

-- `if leader_id`: neither `None` nor empty
abbrev pub truthy : Option Text → Bool
truthy none = false
truthy (some t) = not (is_empty t)

-- The loop over the peers for the leader's URL; `none` if no peer has the id or its URL is empty.
pub url_of : Text → Dict Text Peer → Option Text
url_of id [] = none
url_of id ((k, p) ∷ d) =
    if p.replica_id == id then (if is_empty p.url then none else some p.url) else url_of id d

abbrev pub leader_url : {F : Type 0} → LeaderElection F → Option Text
leader_url e = elim e.current_leader [ none ↦ none | some id ↦ url_of id e.peers ]

module _ {F : Type 0} ⦃fl : Float F⦄ where
  open fl use {mul, trunc, fle, div, round_to}

  -- The answer of the leader, where the follower asks for one.
  pub forward :
      Bool → (Text → Option (RateLimitResult F)) → LeaderElection F → Option (RateLimitResult F)
  unfolding url_of
  forward has_http ask e =
      if truthy e.current_leader && has_http
      then elim (leader_url e) [ none ↦ none | some url ↦ ask url ]
      else none

  -- What the code below the `if _election and not _election.is_leader` block does.
  pub decide_locally : RateLimitCheck → F → Service F → Service F × RateLimitResult F
  decide_locally req now v =
      let (s, d) =
        try_consume (pair_key req.tenant_id req.provider) (of_ℕ req.tokens_requested) now v.store in
      (
        record v {
          store = s;
          total_allowed = if d.allowed then v.total_allowed + 1 else v.total_allowed;
          total_denied = if d.allowed then v.total_denied else v.total_denied + 1;
        },
        record {
          allowed = d.allowed;
          remaining = d.remaining;
          retry_after_ms = d.retry_after_ms;
          leader_replica = some s.leader_id;
        },
      )

  -- `RateLimitResult(allowed=False, …)` of a follower that fails closed.
  abbrev pub closed : LeaderElection F → RateLimitResult F
  closed e = record {
    allowed = false;
    remaining = nought;
    retry_after_ms = trunc (mul e.config.heartbeat_timeout_s (of_ℕ 1000));
    leader_replica = e.current_leader;
  }

  abbrev pub after_forward :
      Option (RateLimitResult F)
      → LeaderElection F
      → RateLimitCheck
      → F
      → Service F
      → Service F × RateLimitResult F
  after_forward (some r) e req now v = (v, r)
  after_forward none e req now v =
      if v.strong_consistency then (v, closed e) else decide_locally req now v

  abbrev pub by_role :
      Option (LeaderElection F)
      → (Text → Option (RateLimitResult F))
      → RateLimitCheck
      → F
      → Service F
      → Service F × RateLimitResult F
  by_role none ask req now v = decide_locally req now v
  by_role (some e) ask req now v =
      if is_leader e
      then decide_locally req now v
      else after_forward (forward v.has_http ask e) e req now v

  -- `check`
  pub check :
      (Text → Option (RateLimitResult F))
      → RateLimitCheck
      → F
      → Service F
      → Service F × RateLimitResult F
  check ask req now v =
      let v' = record v { total_checks = v.total_checks + 1 } in by_role v.election ask req now v'

  -- `deny_rate` of `stats`
  pub deny_rate : Service F → F
  deny_rate v =
      if ltb 0 v.total_checks
      then round_to 4 (div (of_ℕ v.total_denied) (of_ℕ v.total_checks))
      else nought
