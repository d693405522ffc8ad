-- ===== src/RateLimiter/Service/Endpoints.antt =====
-- The election endpoints, the configuration endpoints, `/reset`, `/stats` and the rounds of the
-- background loops of intelliroute/rate_limiter/main.py. `_replication_offset` is an argument where
-- one changes it. `body.get(…)` is an optional text.
use intelli_route_team.Common.{
  ℕ, Bool, true, false, not, ◌&&◌, Option, none, some, [], ◌∷◌, Text, text_eq, nat_beq,
  if◌then◌else◌, length,
}
use intelli_route_team.Common.Float.{Float}
use intelli_route_team.RateLimiter.Bucket.{BucketConfig}
use intelli_route_team.RateLimiter.Key.{pair_key}
use intelli_route_team.RateLimiter.Store.{
  RateLimiterStore, resolve_config, set_leader, reset, set_config, set_tenant_provider_quota,
  set_tenant_default, set_provider_default, log_length,
}
use intelli_route_team.RateLimiter.Store.Replication.{sync_round}
use intelli_route_team.RateLimiter.Election.{
  LeaderElection, is_leader, start_election, receive_challenge, receive_victory, receive_heartbeat,
  check_leader_timeout,
}
use intelli_route_team.RateLimiter.Service.{Service, truthy, leader_url, deny_rate}

pub record RateLimiterStats (F : Type 0) : Type 0 where
  pub active_buckets : ℕ
  pub total_checks : ℕ
  pub total_allowed : ℕ
  pub total_denied : ℕ
  pub deny_rate : F
  pub replication_log_length : ℕ
  pub replica_id : Option Text
  pub current_leader : Option Text
  pub is_leader : Bool

-- A body of one of the four configuration endpoints.
pub data QuotaPayload (F : Type 0) : Type 0 where
  for_key : Text → BucketConfig F → QuotaPayload F
  for_pair : Text → Text → BucketConfig F → QuotaPayload F
  for_tenant : Text → BucketConfig F → QuotaPayload F
  for_provider : Text → BucketConfig F → QuotaPayload F

abbrev is_well : Option ℕ → Bool
is_well none = false
is_well (some status) = nat_beq status 200

module _ {F : Type 0} ⦃fl : Float F⦄ where
  -- `if _election: id = body.get(…); if id: …`; the Boolean is `acknowledged`.
  abbrev on_message :
      Option Text → (Text → LeaderElection F → Service F → Service F) → Service F → Service F × Bool
  on_message none act v = (v, false)
  on_message (some []) act v = (v, false)
  on_message (some (c ∷ id)) act v = elim v.election [
    | none ↦ (v, false)
    | some e ↦ (act (c ∷ id) e v, true)
  ]

  unfoldable pub election_challenge : Option Text → Service F → Service F × Bool
  election_challenge challenger_id =
      on_message challenger_id λ id e v. record v { election = some (receive_challenge id e) }

  unfoldable pub election_victory : Option Text → F → Service F → Service F × Bool
  election_victory leader_id now = on_message leader_id λ id e v. record v {
    election = some (receive_victory id now e);
    store = set_leader id v.store;
  }

  unfoldable pub election_heartbeat : Option Text → F → Service F → Service F × Bool
  election_heartbeat leader_id now =
      on_message leader_id λ id e v. record v { election = some (receive_heartbeat id now e) }

  abbrev with_election : (LeaderElection F → LeaderElection F) → Service F → Service F
  with_election f v = elim v.election [ none ↦ v | some e ↦ record v { election = some (f e) } ]

  -- A round of `_run_election`
  unfoldable pub election_round : F → Service F → Service F
  election_round now =
      with_election λ e. if check_leader_timeout now e then start_election now e else e

  -- Does a follower know whom to ask after its leader?
  abbrev pub watched_url : Bool → LeaderElection F → Option Text
  watched_url has_http e =
      if not (is_leader e) && truthy e.current_leader && has_http then leader_url e else none

  abbrev after_probe : F → (Text → Option ℕ) → LeaderElection F → Option Text → LeaderElection F
  after_probe now probe e none = e
  after_probe now probe e (some url) = if is_well (probe url) then e else start_election now e

  -- A round of `_leader_watchdog`; `probe url` is the status of the leader's `/health`, `none` for an
  -- exception.
  unfoldable pub watchdog_round : F → (Text → Option ℕ) → Service F → Service F
  watchdog_round now probe v =
      with_election (λ e. after_probe now probe e (watched_url v.has_http e)) v

  abbrev after_sync : Service F → ℕ → Option (RateLimiterStore F) → Service F × ℕ
  after_sync v offset none = (v, offset)
  after_sync v offset (some leader) =
      let (s, offset') = sync_round leader (v.store, offset) in (record v { store = s }, offset')

  abbrev sync_from :
      (Text → Option (RateLimiterStore F)) → Service F → ℕ → Option Text → Service F × ℕ
  sync_from fetch v offset none = (v, offset)
  sync_from fetch v offset (some url) = after_sync v offset (fetch url)

  -- A round of `_log_sync_loop`; `fetch url` is the leader's store, whose log is asked for, and `none`
  -- for an exception or a status other than 200.
  unfoldable pub log_sync_round :
      (Text → Option (RateLimiterStore F)) → Service F × ℕ → Service F × ℕ
  log_sync_round fetch (v, offset) = elim v.election [
    | none ↦ (v, offset)
    | some e ↦ sync_from fetch v offset (watched_url v.has_http e)
  ]

  abbrev store_of : QuotaPayload F → RateLimiterStore F → RateLimiterStore F × Bool
  store_of (for_key key c) = set_config key c
  store_of (for_pair tenant provider c) = set_tenant_provider_quota tenant provider c
  store_of (for_tenant tenant c) = set_tenant_default tenant c
  store_of (for_provider provider c) = set_provider_default provider c

  -- The four configuration endpoints; the Boolean says that none raised.
  unfoldable pub set_quota : QuotaPayload F → Service F → Service F × Bool
  set_quota payload v = let (s, ok) = store_of payload v.store in (record v { store = s }, ok)

  unfoldable pub reset_state : Bool → Bool → Service F × ℕ → Service F × ℕ
  reset_state clear_configs clear_log (v, offset) =
      (record v { store = reset clear_configs clear_log v.store }, 0)

  unfoldable pub resolve_quota : Text → Text → Service F → BucketConfig F × Text
  resolve_quota tenant_id provider v = resolve_config v.store (pair_key tenant_id provider)

  abbrev id_of : Option (LeaderElection F) → Option Text
  id_of none = none
  id_of (some e) = some e.replica_id

  abbrev leader_of : Option (LeaderElection F) → Option Text
  leader_of none = none
  leader_of (some e) = e.current_leader

  abbrev pub leads : Option (LeaderElection F) → Bool
  leads none = true
  leads (some e) = is_leader e

  unfoldable pub stats : Service F → RateLimiterStats F
  stats v = record {
    active_buckets = length v.store.buckets;
    total_checks = v.total_checks;
    total_allowed = v.total_allowed;
    total_denied = v.total_denied;
    deny_rate = deny_rate v;
    replication_log_length = log_length v.store;
    replica_id = id_of v.election;
    current_leader = leader_of v.election;
    is_leader = leads v.election;
  }
