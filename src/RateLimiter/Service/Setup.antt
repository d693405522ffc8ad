-- ===== src/RateLimiter/Service/Setup.antt =====
-- `_setup_election` of intelliroute/rate_limiter/main.py: the replicas that are named in
-- `RATE_LIMITER_PEERS`.
use intelli_route_team.Common.{
  ℕ, ◌≡◌, ◌∙◌, ap, true, false, not, some, List, [], ◌∷◌, ◌++◌, map, All, Text, text_eq, ◌==◌,
  arith, if◌then◌else◌, filter_by, refl,
}
use intelli_route_team.Common.Strings.{strip, join, is_text}
use intelli_route_team.Common.Strings.Split.{
  has_char, before, after, split_on, is_solid, split_on-join, before-append, after-append,
  strip-solid, is_solid-append, has_char-append, is_text-append, is_text-cons,
}
use intelli_route_team.Common.Float.{Float, of_ℕ}
use intelli_route_team.RateLimiter.Store.{set_leader}
use intelli_route_team.RateLimiter.Election.{Peer, ElectionConfig, new_election}
use intelli_route_team.RateLimiter.Service.{Service}

abbrev equals : ℕ
equals = b'='

abbrev comma : ℕ
comma = b','

abbrev peer_of : Text → Peer
peer_of pair = record { replica_id = strip (before equals pair); url = strip (after equals pair) }

-- The body of the loop over the pairs, for each of them.
pub parse_pairs : List Text → List Peer
parse_pairs [] = []
parse_pairs (raw ∷ pairs) =
    let pair = strip raw in
    if has_char equals pair then peer_of pair ∷ parse_pairs pairs else parse_pairs pairs

-- `peers_str.split(",")` if the variable is not empty
pub parse_peers : Text → List Peer
unfolding parse_pairs
parse_peers [] = []
parse_peers (c ∷ s) = parse_pairs (split_on comma (c ∷ s))

-- `[p for p in peers if p.replica_id != replica_id]`
abbrev pub others : Text → List Peer → List Peer
others replica_id peers = filter_by (λ p. not (p.replica_id == replica_id)) peers

module _ {F : Type 0} ⦃fl : Float F⦄ where
  abbrev pub timing : ElectionConfig F
  timing = record {
    election_timeout_s = of_ℕ 2;
    heartbeat_interval_s = of_ℕ 1;
    heartbeat_timeout_s = of_ℕ 3;
  }

  unfoldable pub setup_election : Text → Text → Service F → Service F
  unfolding parse_peers
  setup_election replica_id peers_str v = record v {
    election = some (new_election replica_id (others replica_id (parse_peers peers_str)) timing);
    store = set_leader replica_id v.store;
  }

-- `"id=url"`, and the pairs joined by commas.
abbrev pub show_peer : Peer → Text
show_peer p = p.replica_id ++ (equals ∷ p.url)

abbrev pub show_peers : List Peer → Text
show_peers peers = join (comma ∷ []) (map show_peer peers)

-- Ids and URLs that the format can express: no white space, no comma, and no `=` in the id.
abbrev pub IsExpressible : Peer → Type 0
IsExpressible p =
    (has_char equals p.replica_id ≡ false)
    × (has_char comma p.replica_id ≡ false)
    × (has_char comma p.url ≡ false)
    × (is_solid p.replica_id ≡ true)
    × (is_solid p.url ≡ true)

no_comma : (p : Peer) → IsExpressible p → has_char comma (show_peer p) ≡ false
no_comma p h = ground (arith, has_char-append comma p.replica_id (equals ∷ p.url))

solid : (p : Peer) → IsExpressible p → strip (show_peer p) ≡ show_peer p
solid p h =
    strip-solid (show_peer p) (ground (arith, is_solid-append p.replica_id (equals ∷ p.url)))

peer_of-show_peer : (p : Peer) → IsExpressible p → peer_of (show_peer p) ≡ p
peer_of-show_peer p (h, _, _, id_solid, url_solid) = ground (
  arith,
  before-append equals p.replica_id p.url h,
  after-append equals p.replica_id p.url h,
  strip-solid p.replica_id id_solid,
  strip-solid p.url url_solid,
)

parse_pairs-map :
    (peers : List Peer) → All IsExpressible peers → parse_pairs (map show_peer peers) ≡ peers
unfolding parse_pairs
parse_pairs-map [] h = refl
parse_pairs-map (p ∷ ps) h = ground (
  arith,
  solid p h.0,
  peer_of-show_peer p h.0,
  has_char-append equals p.replica_id (equals ∷ p.url),
  parse_pairs-map ps h.1,
)

All-no_comma :
    (peers : List Peer)
    → All IsExpressible peers
    → All (λ t. has_char comma t ≡ false) (map show_peer peers)
All-no_comma [] h = tt
All-no_comma (p ∷ ps) h = (no_comma p h.0, All-no_comma ps h.1)

parse_peers-text : (s : Text) → is_text s ≡ true → parse_peers s ≡ parse_pairs (split_on comma s)
unfolding parse_peers
parse_peers-text [] h = cc
parse_peers-text (c ∷ s) h = refl

is_text-show_peer : (p : Peer) → is_text (show_peer p) ≡ true
is_text-show_peer p = ground (arith, is_text-cons p.replica_id equals p.url)

is_text-show_peers : (p : Peer) (ps : List Peer) → is_text (show_peers (p ∷ ps)) ≡ true
is_text-show_peers p [] = is_text-show_peer p
is_text-show_peers p (q ∷ ps) =
    is_text-append (show_peer p) (comma ∷ show_peers (q ∷ ps)) (is_text-show_peer p)

parse_peers-show_peers :
    (peers : List Peer) → All IsExpressible peers → parse_peers (show_peers peers) ≡ peers
unfolding parse_peers
parse_peers-show_peers [] h = refl
parse_peers-show_peers (p ∷ ps) h =
    parse_peers-text (show_peers (p ∷ ps)) (is_text-show_peers p ps)
    ∙ ap parse_pairs
        (split_on-join comma (show_peer p) (map show_peer ps) (All-no_comma (p ∷ ps) h))
    ∙ parse_pairs-map (p ∷ ps) h

module _ {F : Type 0} ⦃fl : Float F⦄ where
  -- A replica that is told its own id and the peers, its own among them, as pairs joined by commas
  -- (without white space, commas, or an `=` in an id), starts with exactly those peers but itself.
  pub setup_election-show_peers :
      (replica_id : Text) (peers : List Peer) (v : Service F)
      → All IsExpressible peers
      → (setup_election replica_id (show_peers peers) v).election
        ≡ some (new_election replica_id (others replica_id peers) timing)
  unfolding setup_election
  setup_election-show_peers replica_id peers v h =
      ap (λ ps. some (new_election replica_id (others replica_id ps) timing))
        (parse_peers-show_peers peers h)
