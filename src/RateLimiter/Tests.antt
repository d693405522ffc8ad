-- ===== src/RateLimiter/Tests.antt =====
-- The theorems about the rate limiter at concrete inputs, and runs of its code.
use Prim.Native.String.{String}
use intelli_route_team.Common.{
  ℕ, ◌+◌, ◌-◌, ◌*◌, ◌≤◌, ◌≡◌, refl, inl, true, false, ◌&&◌, some, List, [], ◌∷◌, arith, Text,
  length,
}
use intelli_route_team.Common.Strings.{text}
use intelli_route_team.Common.Float.{nat_float, nat-IsFloat}
use intelli_route_team.RateLimiter.Bucket
use intelli_route_team.RateLimiter.Bucket.{TokenBucket, BucketConfig, Decision}
use intelli_route_team.RateLimiter.Bucket.Bounds
use intelli_route_team.RateLimiter.Bucket.Bounds.{try_consume-IsValid}
use intelli_route_team.RateLimiter.Bucket.Granted.{run, granted-le}
use intelli_route_team.RateLimiter.Store.{new_store, Call, consume, configure, perform_all}
use intelli_route_team.RateLimiter.Store.Current.{IsCurrent}
use intelli_route_team.RateLimiter.Store.Calls.{perform_all-IsCurrent, new_store-IsCurrent}
use intelli_route_team.RateLimiter.Store.Replication.{Agree, serve, sync_round, sync_round-Agree}
use intelli_route_team.RateLimiter.Election.{
  Peer, ElectionConfig, LeaderElection, Event, elect, new_election, handle_all, is_leader,
}
use intelli_route_team.RateLimiter.Election.Leader.{at_most_one_leader}

abbrev ten : BucketConfig ℕ
ten = record { capacity = 10; refill_rate = 2 }

abbrev half_full : TokenBucket ℕ
half_full = record { capacity = 10; refill_rate = 2; tokens = 5; updated_at = some 100 }

half_full-IsValid : Bounds.IsValid half_full
half_full-IsValid = record { rate_nonneg = refl; tokens_nonneg = refl; within = refl }

-- After 3 seconds the bucket is full again, and 4 tokens leave 6.
try_consume_full :
    (Bucket.try_consume 4 103 half_full).1
    ≡ record { allowed = true; remaining = 6; retry_after_ms = 0 }
unfolding Bucket.try_consume
try_consume_full = refl

abbrev requests : List (ℕ × ℕ)
requests = (100, 3) ∷ (101, 4) ∷ (101, 4) ∷ (104, 6) ∷ []

granted-le_example :
    let (b', total) = run requests half_full in
    total + b'.tokens ≤ half_full.tokens + (104 - 100) * half_full.refill_rate
granted-le_example = granted-le 100 requests 104 half_full refl (omega arith)

abbrev tenant : Text
tenant = text "acme"

abbrev groq : Text
groq = text "groq"

abbrev calls : List (Call ℕ)
calls = consume tenant groq 1 5 ∷ configure (text "acme|*") ten ∷ consume tenant groq 1 6 ∷ []

perform_all-IsCurrent_example : IsCurrent (perform_all calls (new_store ten))
perform_all-IsCurrent_example =
    perform_all-IsCurrent calls (new_store ten) (new_store-IsCurrent ten)

abbrev served_requests : List (Text × ℕ × ℕ)
served_requests = (text "acme|groq", 4, 5) ∷ (text "acme|groq", 9, 6) ∷ (text "b|groq", 1, 6) ∷ []

sync_round-Agree_example :
    let leader = serve served_requests (new_store ten) in
    let (f', offset) = sync_round leader (new_store ten, 0) in
    Agree leader f' × (offset ≡ length leader.log)
sync_round-Agree_example =
    sync_round-Agree nat-IsFloat served_requests (new_store ten) (new_store ten)
      (record { buckets = refl; configs = refl; default_config = refl })

abbrev timeouts : ElectionConfig ℕ
timeouts = record { election_timeout_s = 2; heartbeat_interval_s = 1; heartbeat_timeout_s = 3 }

abbrev rl : String → Peer
rl id = record { replica_id = text id; url = text "http" }

abbrev elected : List (Event ℕ)
elected = elect 7 ∷ []

abbrev rl_0 : LeaderElection ℕ
rl_0 = new_election (text "rl-0") (rl "rl-1" ∷ []) timeouts

at_most_one_leader_example :
    (is_leader (handle_all elected (new_election (text "rl-1") (rl "rl-0" ∷ []) timeouts))
      && is_leader (handle_all elected rl_0))
    ≡ false
at_most_one_leader_example =
    at_most_one_leader elected elected (text "rl-1") (text "rl-0") (rl "rl-0" ∷ []) (rl "rl-1" ∷ [])
      timeouts (inl refl) (inl refl)
