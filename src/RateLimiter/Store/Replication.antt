-- ===== src/RateLimiter/Store/Replication.antt =====
-- A follower that replays the log of its leader comes to the leader's buckets.
use mathlib.Core.List.{append-nil, append_assoc}
use intelli_route_team.Common.{
  ℕ, ◌≡◌, refl, sym, ◌∙◌, List, [], ◌∷◌, ◌++◌, arith, Text, text_eq, length, drop, ltb,
  length-append, drop-append, if◌then◌else◌,
}
use intelli_route_team.Common.Float.{Float, IsFloat, nought}
use intelli_route_team.RateLimiter.Bucket
use intelli_route_team.RateLimiter.Bucket.{TokenBucket, BucketConfig, refill, fresh}
use intelli_route_team.RateLimiter.Store.{
  RateLimiterStore, LogEntry, resolve_config, ensure_bucket, try_consume, replay_log_entry,
  replay_bucket,
}

-- `/log/since/{offset}` of main.py: the entries and the total length
abbrev pub log_since : {F : Type 0} → ℕ → RateLimiterStore F → List (LogEntry F) × ℕ
log_since offset s = (if ltb offset (length s.log) then drop offset s.log else [], length s.log)

since_append :
    {A : Type 0} (xs ys : List A)
    → (if ltb (length xs) (length (xs ++ ys)) then drop (length xs) (xs ++ ys) else []) ≡ ys
since_append xs [] = rw append-nil (ground arith)
since_append xs (y ∷ ys) = ground (arith, length-append xs (y ∷ ys), drop-append xs (y ∷ ys))

module _ {F : Type 0} ⦃fl : Float F⦄ where
  open fl use {sub, fle}

  -- A request as its key, amount and time.
  unfoldable pub serve : List (Text × F × F) → RateLimiterStore F → RateLimiterStore F
  serve [] s = s
  serve ((key, amount, now) ∷ reqs) s = serve reqs (try_consume key amount now s).0

  -- The loop of `_log_sync_loop` over the entries of one answer.
  unfoldable pub replay_all : List (LogEntry F) → RateLimiterStore F → RateLimiterStore F
  replay_all [] s = s
  replay_all (e ∷ es) s = replay_all es (replay_log_entry e s)

  -- One round of `_log_sync_loop` on a follower and its `_replication_offset`.
  unfoldable pub sync_round : RateLimiterStore F → RateLimiterStore F × ℕ → RateLimiterStore F × ℕ
  sync_round leader (s, offset) =
      let (entries, total) = log_since offset leader in (replay_all entries s, total)

  -- The two replicas decide alike: the same buckets under the same limits.
  pub record Agree (a b : RateLimiterStore F) : Type 0 where
    pub buckets : a.buckets ≡ b.buckets
    pub configs : a.configs ≡ b.configs
    pub default_config : a.default_config ≡ b.default_config

  ensure_bucket-Agree :
      (key : Text) (a b : RateLimiterStore F)
      → Agree a b
      → ensure_bucket key a ≡ ensure_bucket key b
  unfolding ensure_bucket resolve_config
  ensure_bucket-Agree key a b h = rw (h.buckets, h.configs, h.default_config)

  module _ (laws : IsFloat F) where
    open laws use {sub_nonneg, fle_antisymm}

    -- What the leader takes out of a bucket, the replay of its decision takes out too.
    replay_bucket_lem :
        (key : Text) (amount now : F) (b : TokenBucket F)
        → let (b', d) = Bucket.try_consume amount now b in
          replay_bucket
            (record { ts = now; key = key; amount = amount; allowed = d.allowed })
            (refill now b)
          ≡ b'
    unfolding Bucket.try_consume replay_bucket
    replay_bucket_lem key amount now b =
        let r = refill now b in
        let x = sub r.tokens amount in
        ground (arith, sub_nonneg r.tokens amount, fle_antisymm x nought)

    new_entry : Text → F → F → RateLimiterStore F → LogEntry F
    new_entry key amount now s = record {
      ts = now;
      key = key;
      amount = amount;
      allowed = (try_consume key amount now s).1.allowed;
    }

    step-Agree :
        (key : Text) (amount now : F) (l f : RateLimiterStore F)
        → Agree l f
        → Agree (try_consume key amount now l).0 (replay_log_entry (new_entry key amount now l) f)
    unfolding try_consume replay_log_entry new_entry
    step-Agree key amount now l f h = record {
      buckets = cc (
        h.buckets,
        ensure_bucket-Agree key l f h,
        replay_bucket_lem key amount now (ensure_bucket key l),
      );
      configs = h.configs;
      default_config = h.default_config;
    }

    -- The entries that serving the requests adds to the log.
    logged : List (Text × F × F) → RateLimiterStore F → List (LogEntry F)
    logged [] s = []
    logged ((key, amount, now) ∷ reqs) s =
        new_entry key amount now s ∷ logged reqs (try_consume key amount now s).0

    log-serve :
        (reqs : List (Text × F × F)) (s : RateLimiterStore F)
        → (serve reqs s).log ≡ s.log ++ logged reqs s
    unfolding serve logged new_entry try_consume
    log-serve [] s = sym (append-nil s.log)
    log-serve ((key, amount, now) ∷ reqs) s =
        log-serve reqs (try_consume key amount now s).0
        ∙ append_assoc s.log (new_entry key amount now s ∷ [])
            (logged reqs (try_consume key amount now s).0)

    replay_all-Agree :
        (reqs : List (Text × F × F)) (l f : RateLimiterStore F)
        → Agree l f
        → Agree (serve reqs l) (replay_all (logged reqs l) f)
    unfolding serve logged replay_all
    replay_all-Agree [] l f h = h
    replay_all-Agree ((key, amount, now) ∷ reqs) l f h =
        replay_all-Agree reqs (try_consume key amount now l).0
          (replay_log_entry (new_entry key amount now l) f) (step-Agree key amount now l f h)

    -- A follower that agrees with its leader, and whose offset is the length of the leader's log,
    -- agrees with it again after the leader has served any requests and the follower has made one
    -- round of its sync loop, as long as neither changes its configuration; its offset is again the
    -- length of the log.
    pub sync_round-Agree :
        (reqs : List (Text × F × F)) (l f : RateLimiterStore F)
        → Agree l f
        → let (f', offset) = sync_round (serve reqs l) (f, length l.log) in
          Agree (serve reqs l) f' × (offset ≡ length (serve reqs l).log)
    unfolding sync_round
    sync_round-Agree reqs l f h = (
      simp (log-serve reqs l, since_append l.log (logged reqs l)) (replay_all-Agree reqs l f h),
      refl,
    )
