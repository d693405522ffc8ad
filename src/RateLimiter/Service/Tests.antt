-- ===== src/RateLimiter/Service/Tests.antt =====
-- The theorems about a replica's service at concrete inputs.
use intelli_route_team.Common.{
  ℕ, ◌≡◌, refl, true, false, Option, none, some, List, [], ◌∷◌, Text, arith,
}
use intelli_route_team.Common.Float.{nat_float}
use intelli_route_team.Common.Strings.{text}
use intelli_route_team.RateLimiter.Bucket.{BucketConfig}
use intelli_route_team.RateLimiter.Store.{new_store, try_consume}
use intelli_route_team.RateLimiter.Key.{pair_key}
use intelli_route_team.RateLimiter.Store.Replication.{serve, sync_round}
use intelli_route_team.RateLimiter.Election.{Peer, LeaderElection, follower, new_election}
use intelli_route_team.RateLimiter.Service.{Service, RateLimitCheck, RateLimitResult, check, url_of}
use intelli_route_team.RateLimiter.Service.Setup.{
  show_peers, others, timing, setup_election, setup_election-show_peers,
}
use intelli_route_team.RateLimiter.Service.Endpoints.{leads, watchdog_round, reset_state}
use intelli_route_team.RateLimiter.Service.Failover.{reset_loses_checks}
use intelli_route_team.RateLimiter.Service.Takeover.{
  Step, asked, challenged, beaten, polled, probed, perform_all, takeover_lasts,
}

abbrev limit : BucketConfig ℕ
limit = record { capacity = 10; refill_rate = 1 }

abbrev peers : List Peer
peers =
    record { replica_id = text "rl-0"; url = text "http://localhost:8011" }
    ∷ record { replica_id = text "rl-1"; url = text "http://localhost:8012" }
    ∷ record { replica_id = text "rl-2"; url = text "http://localhost:8013" }
    ∷ []

-- Replica rl-2, which follows rl-1.
abbrev replica : LeaderElection ℕ
replica = record {
  replica_id = text "rl-2";
  peers =
      (text "rl-0", record { replica_id = text "rl-0"; url = text "http://localhost:8011" })
      ∷ (text "rl-1", record { replica_id = text "rl-1"; url = text "http://localhost:8012" })
      ∷ [];
  config = timing;
  state = follower;
  current_leader = some (text "rl-1");
  last_heartbeat = 100;
  election_start_time = 0;
}

abbrev service : Service ℕ
service = record {
  store = new_store limit;
  election = some replica;
  has_http = true;
  strong_consistency = true;
  total_checks = 0;
  total_allowed = 0;
  total_denied = 0;
}

abbrev request : RateLimitCheck
request = record { tenant_id = text "acme"; provider = text "groq"; tokens_requested = 1 }

abbrev ask : Text → Option (RateLimitResult ℕ)
ask url = none

setup_election-show_peers_example :
    (setup_election (text "rl-1") (show_peers peers) service).election
    ≡ some (new_election (text "rl-1") (others (text "rl-1") peers) timing)
setup_election-show_peers_example = setup_election-show_peers (text "rl-1") peers service (
  (refl, refl, refl, refl, refl),
  ((refl, refl, refl, refl, refl), ((refl, refl, refl, refl, refl), tt)),
)

-- After the takeover: a check, a challenge and a heartbeat of rl-1, and the rounds of the timers.
abbrev steps : List (Step ℕ)
steps =
    asked ask request 105
    ∷ challenged (some (text "rl-1"))
    ∷ beaten (some (text "rl-1")) 106
    ∷ polled 107
    ∷ probed 108 (λ url. none)
    ∷ []

takeover_lasts_example :
    let w = perform_all steps (watchdog_round 105 (λ url. none) service) in
    let (w', answer) = check ask request 109 w in
    let (store, given) = try_consume (pair_key (text "acme") (text "groq")) 1 109 w.store in
    (leads w'.election ≡ true)
    × (w'.store ≡ store)
    × (answer.allowed ≡ given.allowed)
    × (answer.remaining ≡ given.remaining)
    × (answer.retry_after_ms ≡ given.retry_after_ms)
unfolding url_of
takeover_lasts_example =
    takeover_lasts service replica 105 (λ url. none) (text "http://localhost:8012") steps ask
      request 109 refl refl refl refl refl

abbrev requests : List (Text × ℕ × ℕ)
requests = (text "acme|groq", 1, 120) ∷ (text "acme|groq", 1, 121) ∷ []

reset_loses_checks_example :
    sync_round (serve requests (reset_state false true (service, 0)).0.store) (new_store limit, 5)
    ≡ (new_store limit, 2)
reset_loses_checks_example =
    reset_loses_checks requests false service (new_store limit) 5 0 (omega arith)
