-- ===== src/RateLimiter/Store/Calls.antt =====
-- The layered limits hold of every bucket after any calls of the service.
use intelli_route_team.Common.{
  ◌≡◌, ap, ◌∙◌, inl, inr, true, List, [], ◌∷◌, arith, Text, text_eq, text_beq_iff, Option-cases,
}
use intelli_route_team.Common.Dict.{lookup, insert, lookup-insert}
use intelli_route_team.Common.Float.{Float}
use intelli_route_team.RateLimiter.Bucket
use intelli_route_team.RateLimiter.Bucket.{TokenBucket, BucketConfig, refill, fresh}
use intelli_route_team.RateLimiter.Key.{has_bar, pair_key, has_bar-pair_key}
use intelli_route_team.RateLimiter.Store.{
  RateLimiterStore, LogEntry, resolve_config, invalidate_buckets, set_config, ensure_bucket,
  try_consume, replay_log_entry, replay_bucket, set_leader, reset, set_tenant_provider_quota,
  new_store, Call, consume, configure, replay, lead, clear, perform, perform_all,
}
use intelli_route_team.RateLimiter.Store.Current.{IsCurrent, set_config-IsCurrent}

module _ {F : Type 0} ⦃fl : Float F⦄ where
  abbrev Limits : TokenBucket F → BucketConfig F → Type 0
  Limits b c = (b.capacity ≡ c.capacity) × (b.refill_rate ≡ c.refill_rate)

  -- The bucket that a call works on has the limits of its key.
  ensure_bucket-Limits :
      (key : Text) (s : RateLimiterStore F)
      → IsCurrent s
      → Limits (ensure_bucket key s) (resolve_config s key).0
  unfolding ensure_bucket
  ensure_bucket-Limits key s v = elim (Option-cases (lookup key s.buckets)) [
    | inl e ↦ ground arith
    | inr (b, e) ↦ ground (arith, v.capacity key b e, v.refill_rate key b e)
  ]

  try_consume-Limits :
      (amount now : F) (b : TokenBucket F) (c : BucketConfig F)
      → Limits b c
      → Limits (Bucket.try_consume amount now b).0 c
  unfolding Bucket.try_consume
  try_consume-Limits amount now b c h = ground arith

  -- Writing back a bucket with the right limits, whatever is logged.
  insert-IsCurrent :
      (key : Text) (b : TokenBucket F) (log : List (LogEntry F)) (s : RateLimiterStore F)
      → has_bar key ≡ true
      → Limits b (resolve_config s key).0
      → IsCurrent s
      → IsCurrent (record s { buckets = insert key b s.buckets; log = log })
  unfolding resolve_config
  insert-IsCurrent key b log s hk lim v = record {
    barred =
        λ k n. ground (arith, n, v.barred k, lookup-insert key k b s.buckets, text_beq_iff key k);
    capacity = λ k c e.
        ground (arith, v.capacity k c, lookup-insert key k b s.buckets, text_beq_iff key k);
    refill_rate = λ k c e.
        ground (arith, v.refill_rate k c, lookup-insert key k b s.buckets, text_beq_iff key k);
  }

  perform-IsCurrent : (c : Call F) (s : RateLimiterStore F) → IsCurrent s → IsCurrent (perform c s)
  unfolding perform try_consume replay_log_entry replay_bucket set_leader reset resolve_config
  perform-IsCurrent (consume t p amount now) s v =
      let key = pair_key t p in
      insert-IsCurrent key _ _ s (has_bar-pair_key t p)
        (try_consume-Limits amount now (ensure_bucket key s) _ (ensure_bucket-Limits key s v)) v
  perform-IsCurrent (configure key config) s v = (set_config-IsCurrent key config s v).1
  perform-IsCurrent (replay t p ts amount allowed) s v =
      let key = pair_key t p in
      insert-IsCurrent key _ _ s (has_bar-pair_key t p)
        (ground (arith, ensure_bucket-Limits key s v)) v
  perform-IsCurrent (lead leader_id) s v = record {
    barred = v.barred;
    capacity = v.capacity;
    refill_rate = v.refill_rate;
  }
  perform-IsCurrent (clear clear_configs clear_log) s v = record {
    barred = λ k n. ground (arith, n);
    capacity = λ k b e. cc;
    refill_rate = λ k b e. cc;
  }

  -- From a store whose buckets all have their layered limits, any calls of the service lead to such
  -- a store: no sequence of consumption, replay, reconfiguration and reset leaves a stale bucket.
  pub perform_all-IsCurrent :
      (cs : List (Call F)) (s : RateLimiterStore F) → IsCurrent s → IsCurrent (perform_all cs s)
  unfolding perform_all
  perform_all-IsCurrent [] s v = v
  perform_all-IsCurrent (c ∷ cs) s v =
      perform_all-IsCurrent cs (perform c s) (perform-IsCurrent c s v)

  pub new_store-IsCurrent : (c : BucketConfig F) → IsCurrent (new_store c)
  new_store-IsCurrent c = record {
    barred = λ k n. ground (arith, n);
    capacity = λ k b e. cc;
    refill_rate = λ k b e. cc;
  }

  resolve_config-set_config :
      (key : Text) (c : BucketConfig F) (s : RateLimiterStore F)
      → (resolve_config (set_config key c s).0 key).0 ≡ c
  unfolding set_config resolve_config
  resolve_config-set_config key c s = elim (Option-cases (invalidate_buckets key s.buckets)) [
    | inl e ↦ rw (e, lookup-insert, text_beq_iff key key) (ground (arith, text_beq_iff key key))
    | inr (d, e) ↦ rw (e, lookup-insert) (ground (arith, text_beq_iff key key))
  ]

  -- After any calls to a new store, a quota set for a tenant and a provider is set without an
  -- error and governs the bucket that the next request of the pair works on.
  pub quota_takes_effect :
      (cs : List (Call F)) (d c : BucketConfig F) (tenant provider : Text)
      → let (s, done) =
          set_tenant_provider_quota tenant provider c (perform_all cs (new_store d)) in
        (done ≡ true)
        × ((ensure_bucket (pair_key tenant provider) s).capacity ≡ c.capacity)
        × ((ensure_bucket (pair_key tenant provider) s).refill_rate ≡ c.refill_rate)
  unfolding set_tenant_provider_quota
  quota_takes_effect cs d c t p =
      let s = perform_all cs (new_store d) in
      let key = pair_key t p in
      let (done, v) =
        set_config-IsCurrent key c s
          (perform_all-IsCurrent cs (new_store d) (new_store-IsCurrent d)) in
      let (cap, rate) = ensure_bucket-Limits key (set_config key c s).0 v in
      let now = resolve_config-set_config key c s in
      (done, cap ∙ ap (λ r. r.capacity) now, rate ∙ ap (λ r. r.refill_rate) now)
