-- ===== src/RateLimiter/Election/Lease.antt =====
-- When a lease holds, and when an election is due.
use intelli_route_team.Common.{◌≡◌, ◌≢◌, false, ◌&&◌, some, arith, Text, text_eq, text_beq_iff}
use intelli_route_team.Common.Float.{Float, IsFloat, nought, flt}
use intelli_route_team.RateLimiter.Election.{
  LeaderElection, is_empty, receive_heartbeat, check_leader_timeout, has_valid_lease,
}

module _ {F : Type 0} ⦃fl : Float F⦄ (laws : IsFloat F) where
  open fl use {sub, fle}
  open laws use {fle_total, fle_antisymm}

  -- A replica with peers never holds its lease at a time when an election is due.
  pub lease_excludes_election :
      (now : F) (e : LeaderElection F)
      → is_empty e.peers ≡ false
      → (check_leader_timeout now e && has_valid_lease now e) ≡ false
  unfolding check_leader_timeout has_valid_lease
  lease_excludes_election now e h = ground (
    arith,
    fle_total e.config.heartbeat_timeout_s (sub now e.last_heartbeat),
    fle_total (sub now e.last_heartbeat) e.config.heartbeat_timeout_s,
  )

  -- After a heartbeat, at a time other than 0, of the leader that it knows, a replica with peers
  -- holds its lease exactly while less than the timeout has passed since.
  pub heartbeat_renews :
      (leader_id : Text) (t now : F) (e : LeaderElection F)
      → e.current_leader ≡ some leader_id
      → is_empty e.peers ≡ false
      → t ≢ nought
      → has_valid_lease now (receive_heartbeat leader_id t e)
        ≡ flt (sub now t) e.config.heartbeat_timeout_s
  unfolding receive_heartbeat has_valid_lease
  heartbeat_renews leader_id t now e h p n =
      ground (arith, n, fle_antisymm t nought, text_beq_iff leader_id leader_id)
