-- ===== src/RateLimiter/Service/Failover.antt =====
-- What happens when a leader is lost.
use intelli_route_team.Common.{
  ℕ, ◌+◌, ◌≡◌, ◌≤◌, Bool, true, Option, none, some, List, [], ◌∷◌, Text, text_eq, arith, refl,
  length, length-append, ap, ◌∙◌,
}
use intelli_route_team.Common.Float.{Float, flt}
use intelli_route_team.RateLimiter.Store.{RateLimiterStore, reset, set_leader, try_consume}
use intelli_route_team.RateLimiter.Store.Replication.{serve, sync_round, replay_all}
use intelli_route_team.RateLimiter.Election.{
  LeaderElection, outranks, start_election, declare_victory, receive_victory, check_leader_timeout,
}
use intelli_route_team.RateLimiter.Service.{
  Service, RateLimitCheck, RateLimitResult, check, decide_locally, by_role,
}
use intelli_route_team.RateLimiter.Service.Endpoints.{
  election_victory, election_round, leads, reset_state,
}

module _ {F : Type 0} ⦃fl : Float F⦄ where
  by_role-leads :
      (o : Option (LeaderElection F)) (ask : Text → Option (RateLimitResult F))
      (req : RateLimitCheck) (now : F) (w : Service F)
      → leads o ≡ true
      → by_role o ask req now w ≡ decide_locally req now w
  by_role-leads none ask req now w h = refl
  by_role-leads (some e) ask req now w h = rw h refl

  pub leader_decides :
      (ask : Text → Option (RateLimitResult F)) (req : RateLimitCheck) (now : F) (w : Service F)
      → leads w.election ≡ true
      → check ask req now w
        ≡ decide_locally req now (record w { total_checks = w.total_checks + 1 })
  unfolding check
  leader_decides ask req now w h =
      by_role-leads w.election ask req now (record w { total_checks = w.total_checks + 1 }) h

  names-decide_locally :
      (req : RateLimitCheck) (now : F) (w : Service F)
      → (decide_locally req now w).1.leader_replica ≡ some w.store.leader_id
  unfolding decide_locally try_consume
  names-decide_locally req now w = refl

  store-election_round : (now : F) (w : Service F) → (election_round now w).store ≡ w.store
  unfolding election_round
  store-election_round now w = ground arith

  length-serve :
      (reqs : List (Text × F × F)) (s : RateLimiterStore F)
      → length (serve reqs s).log ≡ length s.log + length reqs
  unfolding serve try_consume
  length-serve [] s = omega arith
  length-serve ((key, amount, now) ∷ reqs) s =
      let (s', d) = try_consume key amount now s in
      omega (
        arith,
        length-serve reqs s',
        length-append s.log
            (record { ts = now; key = key; amount = amount; allowed = d.allowed } ∷ []),
      )

module _ {F : Type 0} ⦃fl : Float F⦄ (v : Service F) (e : LeaderElection F)
    (elected : v.election ≡ some e) (top : outranks e ≡ true) where
  after_victory :
      (c : ℕ) (id : Text) (now : F)
      → (election_victory (some (c ∷ id)) now v).0 ≡ record v {
        election = some (receive_victory (c ∷ id) now e);
        store = set_leader (c ∷ id) v.store;
      }
  unfolding election_victory
  after_victory c id now = rw elected refl

  -- A replica that was told of the leader `l` and, when that has been silent for too long, wins the
  -- next election, decides the checks itself but still names `l` as the leader that decided them.
  pub names_old_leader :
      (c : ℕ) (id : Text) (told now t : F) (ask : Text → Option (RateLimitResult F))
      (req : RateLimitCheck)
      → flt e.config.heartbeat_timeout_s (fl.sub now told) ≡ true
      → let w = election_round now (election_victory (some (c ∷ id)) told v).0 in
        (leads w.election ≡ true) × ((check ask req t w).1.leader_replica ≡ some (c ∷ id))
  unfolding election_round check_leader_timeout receive_victory start_election declare_victory
      set_leader
  names_old_leader c id told now t ask req late =
      let v' = (election_victory (some (c ∷ id)) told v).0 in
      let w = election_round now v' in
      let first : leads w.election ≡ true = rw (after_victory c id told) (rw late (rw top refl)) in
      (
        first,
        ap (λ r. r.1.leader_replica) (leader_decides ask req t w first)
            ∙ (names-decide_locally req t (record w { total_checks = w.total_checks + 1 })
                ∙ ap (λ (s : RateLimiterStore F). some s.leader_id)
                    (store-election_round now v'
                      ∙ ap (λ (u : Service F). u.store) (after_victory c id told))),
      )

-- A follower that has replayed `offset` entries of its leader's log misses the checks that the
-- leader decides after a `/reset` of its log, as long as they are no more than `offset` and the
-- follower has not asked in between: it replays none of them, and will not ask for them again.
pub reset_loses_checks :
    {F : Type 0} ⦃fl : Float F⦄ (reqs : List (Text × F × F)) (clear : Bool) (leader : Service F)
    (s : RateLimiterStore F) (offset kept : ℕ)
    → length reqs ≤ offset
    → sync_round (serve reqs (reset_state clear true (leader, kept)).0.store) (s, offset)
      ≡ (s, length reqs)
unfolding reset_state sync_round reset replay_all
reset_loses_checks reqs clear leader s offset kept h =
    ground (arith, length-serve reqs (reset clear true leader.store))
