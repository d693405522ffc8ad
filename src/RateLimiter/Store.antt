-- ===== src/RateLimiter/Store.antt =====
-- `RateLimiterStore` of intelliroute/rate_limiter/token_bucket.py. The lock makes each method one
-- step, and the clock's reading is an argument.
pub mod Current
pub mod Calls
pub mod Replication
use intelli_route_team.Common.{
  ℕ, ◌≡◌, Bool, true, false, not, ◌&&◌, Option, none, some, List, [], ◌∷◌, ◌++◌, Text, ◌==◌,
  if◌then◌else◌, length, text_eq,
}
use intelli_route_team.Common.Dict.{Dict, lookup, insert, erase}
use intelli_route_team.Common.Strings.{text}
use intelli_route_team.Common.Float.{Float, nought, fmax}
use intelli_route_team.RateLimiter.Bucket
use intelli_route_team.RateLimiter.Bucket.{TokenBucket, BucketConfig, Decision, fresh, refill}
use intelli_route_team.RateLimiter.Key.{has_bar, head_of, tail_of, pair_key, wildcard}

-- `(now, key, amount, allowed)`
pub record LogEntry (F : Type 0) : Type 0 where
  pub ts : F
  pub key : Text
  pub amount : F
  pub allowed : Bool

pub record RateLimiterStore (F : Type 0) : Type 0 where
  pub default_config : BucketConfig F
  pub configs : Dict Text (BucketConfig F)
  pub buckets : Dict Text (TokenBucket F)
  pub log : List (LogEntry F)
  pub leader_id : Text

module _ {F : Type 0} ⦃fl : Float F⦄ where
  open fl use {sub}

  abbrev first_of_3 :
      Option (BucketConfig F)
      → Option (BucketConfig F)
      → Option (BucketConfig F)
      → Text
      → Text
      → Text
      → BucketConfig F
      → BucketConfig F × Text
  first_of_3 (some c) _ _ k1 k2 k3 d = (c, k1)
  first_of_3 none (some c) _ k1 k2 k3 d = (c, k2)
  first_of_3 none none (some c) k1 k2 k3 d = (c, k3)
  first_of_3 none none none k1 k2 k3 d = (d, wildcard)

  -- `_resolve_config_locked`: the configuration and the key that it came from
  unfoldable pub resolve_config : RateLimiterStore F → Text → BucketConfig F × Text
  resolve_config s key =
      let tenant_default = pair_key (head_of key) wildcard in
      let provider_default = pair_key wildcard (tail_of key) in
      first_of_3 (lookup key s.configs) (lookup tenant_default s.configs)
        (lookup provider_default s.configs) key tenant_default provider_default s.default_config

  -- `{k: b for k, b in buckets.items() if k.split("|", 1)[1] != provider}`; a key without a bar has
  -- no second part, and the comprehension raises `IndexError`.
  drop_provider : Text → Dict Text (TokenBucket F) → Option (Dict Text (TokenBucket F))
  drop_provider provider [] = some []
  drop_provider provider ((k, b) ∷ d) = elim (drop_provider provider d) [
    | none ↦ none
    | some rest ↦
        if has_bar k then some (if tail_of k == provider then rest else (k, b) ∷ rest) else none
  ]

  -- `{k: b for k, b in buckets.items() if k.split("|", 1)[0] != tenant}`
  drop_tenant : Text → Dict Text (TokenBucket F) → Dict Text (TokenBucket F)
  drop_tenant tenant [] = []
  drop_tenant tenant ((k, b) ∷ d) =
      if head_of k == tenant then drop_tenant tenant d else (k, b) ∷ drop_tenant tenant d

  -- `_invalidate_buckets_locked`; `none` if it raises
  unfoldable pub invalidate_buckets :
      Text → Dict Text (TokenBucket F) → Option (Dict Text (TokenBucket F))
  unfolding drop_provider drop_tenant
  invalidate_buckets config_key d =
      let tenant = head_of config_key in
      let provider = tail_of config_key in
      if not (has_bar config_key)
      then some d
      else if tenant == wildcard && provider == wildcard
      then some []
      else if tenant == wildcard
      then drop_provider provider d
      else if provider == wildcard
      then some (drop_tenant tenant d)
      else some (erase config_key d)

  abbrev with_buckets :
      RateLimiterStore F → Option (Dict Text (TokenBucket F)) → RateLimiterStore F × Bool
  with_buckets s none = (s, false)
  with_buckets s (some d) = (record s { buckets = d }, true)

  -- `set_config`; the Boolean says that it did not raise
  unfoldable pub set_config : Text → BucketConfig F → RateLimiterStore F → RateLimiterStore F × Bool
  set_config key config s =
      with_buckets (record s { configs = insert key config s.configs })
        (invalidate_buckets key s.buckets)

  unfoldable pub set_tenant_provider_quota :
      Text → Text → BucketConfig F → RateLimiterStore F → RateLimiterStore F × Bool
  set_tenant_provider_quota tenant provider = set_config (pair_key tenant provider)

  unfoldable pub set_tenant_default :
      Text → BucketConfig F → RateLimiterStore F → RateLimiterStore F × Bool
  set_tenant_default tenant = set_config (pair_key tenant wildcard)

  unfoldable pub set_provider_default :
      Text → BucketConfig F → RateLimiterStore F → RateLimiterStore F × Bool
  set_provider_default provider = set_config (pair_key wildcard provider)

  unfoldable pub set_leader : Text → RateLimiterStore F → RateLimiterStore F
  set_leader leader_id s = record s { leader_id = leader_id }

  abbrev or_fresh : Option (TokenBucket F) → BucketConfig F → TokenBucket F
  or_fresh (some b) c = b
  or_fresh none c = fresh c

  -- The bucket that `_ensure_bucket` returns. It is stored by its callers below, which write it
  -- back changed.
  unfoldable pub ensure_bucket : Text → RateLimiterStore F → TokenBucket F
  unfolding fresh
  ensure_bucket key s = or_fresh (lookup key s.buckets) (resolve_config s key).0

  unfoldable pub try_consume : Text → F → F → RateLimiterStore F → RateLimiterStore F × Decision F
  unfolding ensure_bucket
  try_consume key amount now s =
      let (b, d) = Bucket.try_consume amount now (ensure_bucket key s) in
      (
        record s {
          buckets = insert key b s.buckets;
          log =
              s.log ++ (record { ts = now; key = key; amount = amount; allowed = d.allowed } ∷ []);
        },
        d,
      )

  unfoldable pub replay_bucket : LogEntry F → TokenBucket F → TokenBucket F
  replay_bucket e b =
      if e.allowed then record b { tokens = fmax nought (sub b.tokens e.amount) } else b

  unfoldable pub replay_log_entry : LogEntry F → RateLimiterStore F → RateLimiterStore F
  unfolding ensure_bucket refill
  replay_log_entry e s = record s {
    buckets = insert e.key (replay_bucket e (refill e.ts (ensure_bucket e.key s))) s.buckets;
    log = s.log ++ (e ∷ []);
  }

  abbrev level_of : Option (TokenBucket F) → Option (F × F)
  level_of none = none
  level_of (some b) = some (b.tokens, b.capacity)

  unfoldable pub snapshot : Text → RateLimiterStore F → Option (F × F)
  snapshot key s = level_of (lookup key s.buckets)

  unfoldable pub log_length : RateLimiterStore F → ℕ
  log_length s = length s.log

  unfoldable pub reset : Bool → Bool → RateLimiterStore F → RateLimiterStore F
  reset clear_configs clear_log s = record s {
    buckets = [];
    log = if clear_log then [] else s.log;
    configs = if clear_configs then [] else s.configs;
  }

-- `RateLimiterStore(default_config=…)`
abbrev pub new_store : {F : Type 0} → BucketConfig F → RateLimiterStore F
new_store c = record {
  default_config = c;
  configs = [];
  buckets = [];
  log = [];
  leader_id = text "leader-0";
}

-- The calls that rate_limiter/main.py makes: every key of a bucket is `f"{tenant}|{provider}"`.
pub data Call (F : Type 0) : Type 0 where
  consume : Text → Text → F → F → Call F
  configure : Text → BucketConfig F → Call F
  replay : Text → Text → F → F → Bool → Call F
  lead : Text → Call F
  clear : Bool → Bool → Call F

module _ {F : Type 0} ⦃fl : Float F⦄ where
  pub perform : Call F → RateLimiterStore F → RateLimiterStore F
  perform (consume tenant provider amount now) s =
      (try_consume (pair_key tenant provider) amount now s).0
  perform (configure key config) s = (set_config key config s).0
  perform (replay tenant provider ts amount allowed) s =
      replay_log_entry
        (record { ts = ts; key = pair_key tenant provider; amount = amount; allowed = allowed }) s
  perform (lead leader_id) s = set_leader leader_id s
  perform (clear clear_configs clear_log) s = reset clear_configs clear_log s

  pub perform_all : List (Call F) → RateLimiterStore F → RateLimiterStore F
  perform_all [] s = s
  perform_all (c ∷ cs) s = perform_all cs (perform c s)
