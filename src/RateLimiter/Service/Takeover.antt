-- ===== src/RateLimiter/Service/Takeover.antt =====
-- What a replica does once it has taken over from a leader that it cannot reach.
use intelli_route_team.Common.{
  ℕ, ◌≡◌, ◌∙◌, refl, ap, Bool, true, false, not, Option, none, some, List, [], ◌∷◌, Text, text_eq,
  ◌==◌, all_by, arith,
}
use intelli_route_team.Common.Float.{Float, of_ℕ}
use intelli_route_team.RateLimiter.Key.{pair_key}
use intelli_route_team.RateLimiter.Store.{RateLimiterStore, try_consume}
use intelli_route_team.RateLimiter.Election.{
  candidate, LeaderElection, is_leader, outranks, start_election, declare_victory,
  receive_challenge, receive_heartbeat, check_leader_timeout,
}
use intelli_route_team.RateLimiter.Service.{
  Service, RateLimitCheck, RateLimitResult, check, decide_locally,
}
use intelli_route_team.RateLimiter.Service.Endpoints.{
  QuotaPayload, election_challenge, election_heartbeat, election_round, watchdog_round,
  log_sync_round, watched_url, set_quota, reset_state, leads,
}
use intelli_route_team.RateLimiter.Service.Failover.{leader_decides}

-- What can happen to a replica, but for an `/election/victory`.
pub data Step (F : Type 0) : Type 0 where
  asked : (Text → Option (RateLimitResult F)) → RateLimitCheck → F → Step F
  configured : QuotaPayload F → Step F
  cleared : Bool → Bool → Step F
  challenged : Option Text → Step F
  beaten : Option Text → F → Step F
  polled : F → Step F
  probed : F → (Text → Option ℕ) → Step F
  synced : (Text → Option (RateLimiterStore F)) → ℕ → Step F

-- Not a heartbeat in the replica's own name.
abbrev pub is_foreign : {F : Type 0} → Text → Step F → Bool
is_foreign id (beaten (some sender) now) = not (sender == id)
is_foreign id _ = true

module _ {F : Type 0} ⦃fl : Float F⦄ where
  pub perform : Step F → Service F → Service F
  perform (asked ask req now) v = (check ask req now v).0
  perform (configured payload) v = (set_quota payload v).0
  perform (cleared clear_configs clear_log) v = (reset_state clear_configs clear_log (v, 0)).0
  perform (challenged id) v = (election_challenge id v).0
  perform (beaten id now) v = (election_heartbeat id now v).0
  perform (polled now) v = election_round now v
  perform (probed now probe) v = watchdog_round now probe v
  perform (synced fetch offset) v = (log_sync_round fetch (v, offset)).0

  abbrev pub perform_all : List (Step F) → Service F → Service F
  perform_all [] v = v
  perform_all (s ∷ steps) v = perform_all steps (perform s v)

  -- The replica leads, and takes itself, `id`, for the leader.
  IsLeading : Text → Service F → Type 0
  IsLeading id v =
      (e : LeaderElection F) × (v.election ≡ some e)
      × (is_leader e ≡ true)
      × (e.current_leader ≡ some id)

  IsLeading-leads : (id : Text) (v : Service F) → IsLeading id v → leads v.election ≡ true
  unfolding IsLeading
  IsLeading-leads id v (e, elected, first, self) = rw elected first

  election-log_sync_round :
      (fetch : Text → Option (RateLimiterStore F)) (offset : ℕ) (v : Service F)
      → (log_sync_round fetch (v, offset)).0.election ≡ v.election
  unfolding log_sync_round
  election-log_sync_round fetch offset v = ground arith

  perform-IsLeading :
      (id : Text) (s : Step F) (v : Service F)
      → is_foreign id s ≡ true
      → IsLeading id v
      → IsLeading id (perform s v)
  unfolding perform IsLeading decide_locally set_quota reset_state election_challenge
      receive_challenge election_heartbeat receive_heartbeat election_round check_leader_timeout
      watchdog_round
  perform-IsLeading id (asked ask req now) v h (e, elected, first, self) =
      let local = leader_decides ask req now v (rw elected first) in
      (e, ap (λ r. r.0.election) local ∙ elected, first, self)
  perform-IsLeading id (configured payload) v h l = l
  perform-IsLeading id (cleared clear_configs clear_log) v h l = l
  perform-IsLeading id (challenged none) v h l = l
  perform-IsLeading id (challenged (some [])) v h l = l
  perform-IsLeading id (challenged (some (c ∷ other))) v h (e, elected, first, self) =
      (e, rw (elected, first) refl, first, self)
  perform-IsLeading id (beaten none now) v h l = l
  perform-IsLeading id (beaten (some []) now) v h l = l
  perform-IsLeading id (beaten (some (c ∷ other)) now) v h (e, elected, first, self) =
      let stranger : ((c ∷ other) == id) ≡ false = ground (arith, h) in
      (e, rw (elected, self, stranger) refl, first, self)
  perform-IsLeading id (polled now) v h (e, elected, first, self) =
      (e, rw (elected, first) refl, first, self)
  perform-IsLeading id (probed now probe) v h (e, elected, first, self) =
      (e, rw (elected, first) refl, first, self)
  perform-IsLeading id (synced fetch offset) v h (e, elected, first, self) =
      (e, election-log_sync_round fetch offset v ∙ elected, first, self)

  perform_all-IsLeading :
      (id : Text) (steps : List (Step F)) (v : Service F)
      → all_by (is_foreign id) steps ≡ true
      → IsLeading id v
      → IsLeading id (perform_all steps v)
  perform_all-IsLeading id [] v h l = l
  perform_all-IsLeading id (s ∷ steps) v h l =
      perform_all-IsLeading id steps (perform s v) (ground (arith, h))
        (perform-IsLeading id s v (ground (arith, h)) l)

  watchdog_round-IsLeading :
      (v : Service F) (e : LeaderElection F) (now : F) (probe : Text → Option ℕ) (url : Text)
      → v.election ≡ some e
      → outranks e ≡ true
      → watched_url v.has_http e ≡ some url
      → probe url ≡ none
      → IsLeading e.replica_id (watchdog_round now probe v)
  unfolding IsLeading watchdog_round start_election declare_victory
  watchdog_round-IsLeading v e now probe url elected top w p = (
    declare_victory now (record e { state = candidate; election_start_time = now }),
    rw (elected, w, p, top) refl,
    refl,
    refl,
  )

  -- The replica `e` that outranks its peers takes over from a leader that its watchdog cannot reach.
  -- Whatever happens then, in whatever order (checks, new quotas, resets, challenges, heartbeats of
  -- others, and the rounds of its timers), as long as no other replica declares its victory, it
  -- decides each check by its own buckets, whatever the others would have answered: by what the
  -- bucket of the tenant and provider gives for the tokens, which it takes from it.
  pub takeover_lasts :
      (v : Service F) (e : LeaderElection F) (now : F) (probe : Text → Option ℕ) (url : Text)
      (steps : List (Step F)) (ask : Text → Option (RateLimitResult F)) (req : RateLimitCheck)
      (t : F)
      → v.election ≡ some e
      → outranks e ≡ true
      → watched_url v.has_http e ≡ some url
      → probe url ≡ none
      → all_by (is_foreign e.replica_id) steps ≡ true
      → let w = perform_all steps (watchdog_round now probe v) in
        let (w', answer) = check ask req t w in
        let (store, given) =
          try_consume (pair_key req.tenant_id req.provider) (of_ℕ req.tokens_requested) t w.store in
        (leads w'.election ≡ true)
        × (w'.store ≡ store)
        × (answer.allowed ≡ given.allowed)
        × (answer.remaining ≡ given.remaining)
        × (answer.retry_after_ms ≡ given.retry_after_ms)
  unfolding decide_locally
  takeover_lasts v e now probe url steps ask req t elected top w p h =
      let u = perform_all steps (watchdog_round now probe v) in
      let first = IsLeading-leads e.replica_id u (
        perform_all-IsLeading e.replica_id steps (watchdog_round now probe v) h
          (watchdog_round-IsLeading v e now probe url elected top w p)) in
      let local = leader_decides ask req t u first in
      (
        ap (λ (r : Service F × RateLimitResult F). leads r.0.election) local ∙ first,
        ap (λ (r : Service F × RateLimitResult F). r.0.store) local,
        ap (λ (r : Service F × RateLimitResult F). r.1.allowed) local,
        ap (λ (r : Service F × RateLimitResult F). r.1.remaining) local,
        ap (λ (r : Service F × RateLimitResult F). r.1.retry_after_ms) local,
      )
