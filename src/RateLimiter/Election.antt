-- ===== src/RateLimiter/Election.antt =====
-- `LeaderElection` of intelliroute/rate_limiter/election.py. The reading of `time.time()` is an
-- argument.
pub mod Leader
pub mod Lease
use intelli_route_team.Common.{
  Bool, true, false, ◌||◌, Option, none, some, List, [], ◌∷◌, Text, text_eq, ◌==◌, if◌then◌else◌,
  all_by, foldl_by,
}
use intelli_route_team.Common.Dict.{Dict, insert}
use intelli_route_team.Common.Strings.{text_ltb}
use intelli_route_team.Common.Float.{Float, nought, flt}

pub record Peer : Type 0 where
  pub replica_id : Text
  pub url : Text

pub data ElectionState : Type 0 where
  follower candidate leader : ElectionState

pub record ElectionConfig (F : Type 0) : Type 0 where
  pub election_timeout_s : F
  pub heartbeat_interval_s : F
  pub heartbeat_timeout_s : F

pub record LeaderElection (F : Type 0) : Type 0 where
  pub replica_id : Text
  pub peers : Dict Text Peer
  pub config : ElectionConfig F
  pub state : ElectionState
  pub current_leader : Option Text
  pub last_heartbeat : F
  pub election_start_time : F

-- `self._state == ElectionState.LEADER`
abbrev pub is_leader_state : ElectionState → Bool
is_leader_state leader = true
is_leader_state _ = false

abbrev pub is_leader : {F : Type 0} → LeaderElection F → Bool
is_leader e = is_leader_state e.state

abbrev pub is_empty {ℓ} : {A : Type ℓ} → List A → Bool
is_empty [] = true
is_empty (x ∷ xs) = false

-- `{p.replica_id: p for p in peers}`
pub index_peers : List Peer → Dict Text Peer
index_peers = foldl_by (λ d p. insert p.replica_id p d) []

abbrev is_current : Text → Option Text → Bool
is_current leader_id none = false
is_current leader_id (some l) = leader_id == l

module _ {F : Type 0} ⦃fl : Float F⦄ where
  open fl use {sub, fle}

  unfoldable pub new_election : Text → List Peer → ElectionConfig F → LeaderElection F
  unfolding index_peers
  new_election replica_id peers config = record {
    replica_id = replica_id;
    peers = index_peers peers;
    config = config;
    state = follower;
    current_leader = none;
    last_heartbeat = nought;
    election_start_time = nought;
  }

  unfoldable pub declare_victory : F → LeaderElection F → LeaderElection F
  declare_victory now e = record e {
    state = leader;
    current_leader = some e.replica_id;
    last_heartbeat = now;
  }

  -- `all(my_id > peer_id for peer_id in self._peers.keys())`
  abbrev pub outranks : LeaderElection F → Bool
  outranks e = all_by (λ kv. text_ltb kv.0 e.replica_id) e.peers

  unfoldable pub start_election : F → LeaderElection F → LeaderElection F
  unfolding declare_victory
  start_election now e =
      let e' = record e { state = candidate; election_start_time = now } in
      if outranks e then declare_victory now e' else e'

  unfoldable pub receive_challenge : Text → LeaderElection F → LeaderElection F
  receive_challenge challenger_id e =
      if is_leader e
      then e
      else if text_ltb e.replica_id challenger_id
      then record e { state = follower; current_leader = some challenger_id }
      else e

  unfoldable pub receive_victory : Text → F → LeaderElection F → LeaderElection F
  receive_victory leader_id now e = record e {
    state = follower;
    current_leader = some leader_id;
    last_heartbeat = now;
  }

  unfoldable pub receive_heartbeat : Text → F → LeaderElection F → LeaderElection F
  receive_heartbeat leader_id now e =
      if is_current leader_id e.current_leader
      then record e { last_heartbeat = now; state = follower }
      else e

  unfoldable pub check_leader_timeout : F → LeaderElection F → Bool
  check_leader_timeout now e =
      if is_leader e then false else flt e.config.heartbeat_timeout_s (sub now e.last_heartbeat)

  -- `self._last_heartbeat == 0.0`
  abbrev is_nought : F → Bool
  is_nought x = if fle x nought then fle nought x else false

  unfoldable pub has_valid_lease : F → LeaderElection F → Bool
  has_valid_lease now e =
      if is_leader e
      then true
      else if is_empty e.peers
      then true
      else if is_nought e.last_heartbeat
      then false
      else flt (sub now e.last_heartbeat) e.config.heartbeat_timeout_s

-- What a replica is told, by its own timers and by its peers, with the time.
pub data Event (F : Type 0) : Type 0 where
  elect : F → Event F
  challenge : Text → Event F
  victory : Text → F → Event F
  heartbeat : Text → F → Event F

module _ {F : Type 0} ⦃fl : Float F⦄ where
  pub handle : Event F → LeaderElection F → LeaderElection F
  handle (elect now) = start_election now
  handle (challenge id) = receive_challenge id
  handle (victory id now) = receive_victory id now
  handle (heartbeat id now) = receive_heartbeat id now

  pub handle_all : List (Event F) → LeaderElection F → LeaderElection F
  handle_all [] e = e
  handle_all (v ∷ vs) e = handle_all vs (handle v e)
