-- ===== src/RateLimiter/Election/Leader.antt =====
-- Who can lead.
use mathlib.Core.Path.{ap₂}
use intelli_route_team.Common.{
  ◌≡◌, ◌≢◌, ◌⊎◌, inl, inr, refl, sym, ◌∙◌, Bool, true, false, none, some, List, [], ◌∷◌, arith,
  Text, text_eq, text_beq_iff, all_by, foldl_by, ◌&&◌, Bool-cases,
}
use intelli_route_team.Common.Dict.{Dict, lookup, insert, lookup-insert}
use intelli_route_team.Common.Strings.{text_ltb, text_ltb_asymm}
use intelli_route_team.Common.Float.{Float}
use intelli_route_team.RateLimiter.Election.{
  Peer, ElectionConfig, LeaderElection, new_election, index_peers, start_election,
  receive_challenge, receive_victory, receive_heartbeat, is_leader, outranks, Event, elect,
  challenge, victory, heartbeat, handle, handle_all,
}

-- A peer of the given id is among the peers.
abbrev pub Knows : Text → List Peer → Type 0
Knows id [] = ⊥
Knows id (p ∷ ps) = (p.replica_id ≡ id) ⊎ Knows id ps

-- The peers that a replica was configured with stand in its table.
lookup-all_by :
    {V : Type 0} (p : Text → Bool) (k : Text) (d : Dict Text V)
    → all_by (λ kv. p kv.0) d ≡ true
    → lookup k d ≢ none
    → p k ≡ true
lookup-all_by p k [] h n = absurd (n refl)
lookup-all_by p k ((j, v) ∷ d) h n = ground (arith, lookup-all_by p k d, text_beq_iff j k, n)

index_from-keeps :
    (k : Text) (ps : List Peer) (d : Dict Text Peer)
    → lookup k d ≢ none
    → lookup k (foldl_by (λ d p. insert p.replica_id p d) d ps) ≢ none
index_from-keeps k [] d n = n
index_from-keeps k (p ∷ ps) d n =
    index_from-keeps k ps (insert p.replica_id p d)
      (λ e. n (ground (arith, e, lookup-insert p.replica_id k p d)))

index_from-Knows :
    (k : Text) (ps : List Peer) (d : Dict Text Peer)
    → Knows k ps
    → lookup k (foldl_by (λ d p. insert p.replica_id p d) d ps) ≢ none
index_from-Knows k [] d h = absurd h
index_from-Knows k (p ∷ ps) d (inl e) =
    index_from-keeps k ps (insert p.replica_id p d)
      (λ m. ground (arith, m, e, lookup-insert p.replica_id k p d, text_beq_iff p.replica_id k))
index_from-Knows k (p ∷ ps) d (inr h) = index_from-Knows k ps (insert p.replica_id p d) h

not_both : (p q : Bool) → (p ≡ true → q ≡ true → ⊥) → (p && q) ≡ false
not_both p q h = ground (arith, h)

module _ {F : Type 0} ⦃fl : Float F⦄ where
  -- A leader outranks its peers and takes itself for the leader.
  pub record IsSound (e : LeaderElection F) : Type 0 where
    pub rank : is_leader e ≡ true → outranks e ≡ true
    pub self : is_leader e ≡ true → e.current_leader ≡ some e.replica_id

  pub handle-IsSound : (v : Event F) (e : LeaderElection F) → IsSound e → IsSound (handle v e)
  unfolding handle start_election receive_challenge receive_victory receive_heartbeat
  handle-IsSound (elect now) e s = ground arith
  handle-IsSound (challenge id) e s = ground arith
  handle-IsSound (victory id now) e s = ground arith
  handle-IsSound (heartbeat id now) e s = ground arith

  handle-keeps :
      (v : Event F) (e : LeaderElection F)
      → ((handle v e).replica_id ≡ e.replica_id) × ((handle v e).peers ≡ e.peers)
  unfolding handle start_election receive_challenge receive_victory receive_heartbeat
  handle-keeps (elect now) e = ground arith
  handle-keeps (challenge id) e = ground arith
  handle-keeps (victory id now) e = ground arith
  handle-keeps (heartbeat id now) e = ground arith

  handle_all-IsSound :
      (vs : List (Event F)) (e : LeaderElection F)
      → IsSound e
      → IsSound (handle_all vs e)
        × ((handle_all vs e).replica_id ≡ e.replica_id)
        × ((handle_all vs e).peers ≡ e.peers)
  unfolding handle_all
  handle_all-IsSound [] e s = (s, refl, refl)
  handle_all-IsSound (v ∷ vs) e s =
      let (t, id, ps) = handle_all-IsSound vs (handle v e) (handle-IsSound v e s) in
      let (id', ps') = handle-keeps v e in (t, id ∙ id', ps ∙ ps')

  new_election-IsSound :
      (id : Text) (ps : List Peer) (c : ElectionConfig F) → IsSound (new_election id ps c)
  unfolding new_election
  new_election-IsSound id ps c = ground arith

  -- Whatever a replica is told from its start on, it leads only if its id is above the id of every
  -- peer that it was configured with.
  pub leader_outranks :
      (vs : List (Event F)) (id k : Text) (ps : List Peer) (c : ElectionConfig F)
      → is_leader (handle_all vs (new_election id ps c)) ≡ true
      → Knows k ps
      → text_ltb k id ≡ true
  unfolding new_election index_peers
  leader_outranks vs id k ps c lead known =
      let (s, same_id, same_peers) =
        handle_all-IsSound vs (new_election id ps c) (new_election-IsSound id ps c) in
      let go = λ (d : Dict Text Peer) (i : Text). all_by (λ kv. text_ltb kv.0 i) d in
      lookup-all_by (λ j. text_ltb j id) k (index_peers ps)
        (sym (ap₂ go same_peers same_id) ∙ s.rank lead) (index_from-Knows k ps [] known)

  -- Of two replicas that were configured with one another and the same timeouts, at most one
  -- leads, whatever each of them was told from its start on, in whatever order, and whether or not
  -- the messages came from real elections.
  pub at_most_one_leader :
      (vs ws : List (Event F)) (a b : Text) (ps qs : List Peer) (c : ElectionConfig F)
      → Knows b ps
      → Knows a qs
      → (is_leader (handle_all vs (new_election a ps c))
          && is_leader (handle_all ws (new_election b qs c)))
        ≡ false
  at_most_one_leader vs ws a b ps qs c hb ha =
      not_both (is_leader (handle_all vs (new_election a ps c)))
        (is_leader (handle_all ws (new_election b qs c)))
        (λ la lb.
          text_ltb_asymm b a (leader_outranks vs a b ps c la hb)
            (leader_outranks ws b a qs c lb ha))

  -- A replica that was configured with a peer of a higher id is not the leader after any events
  -- from its start on.
  pub lower_never_leads :
      (vs : List (Event F)) (id k : Text) (ps : List Peer) (c : ElectionConfig F)
      → Knows k ps
      → text_ltb id k ≡ true
      → is_leader (handle_all vs (new_election id ps c)) ≡ false
  lower_never_leads vs id k ps c known low =
      elim (Bool-cases (is_leader (handle_all vs (new_election id ps c)))) [
        | inl lead ↦ absurd (text_ltb_asymm id k low (leader_outranks vs id k ps c lead known))
        | inr idle ↦ idle
      ]
