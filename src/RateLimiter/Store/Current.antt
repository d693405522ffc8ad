-- ===== src/RateLimiter/Store/Current.antt =====
-- Every bucket has the limits that the layered configuration gives its key now.
use intelli_route_team.Common.{
  ◌≡◌, ◌≢◌, refl, sym, ap, ◌∙◌, text_beq, inl, inr, true, false, none, some, [], ◌∷◌, arith, Text,
  ◌==◌, text_eq, text_beq_iff, if◌then◌else◌, Bool-cases, Option-cases,
}
use intelli_route_team.Common.Dict.{Dict, lookup, insert, lookup-insert, lookup-erase}
use intelli_route_team.Common.Float.{Float}
use intelli_route_team.RateLimiter.Bucket.{TokenBucket, BucketConfig}
use intelli_route_team.RateLimiter.Key.{
  has_bar, head_of, tail_of, pair_key, wildcard, head_of-pair_key, tail_of-pair_key,
  has_bar-pair_key, has_bar-head_of,
}
use intelli_route_team.RateLimiter.Store.{
  RateLimiterStore, resolve_config, drop_provider, drop_tenant, invalidate_buckets, set_config,
  with_buckets,
}

-- What `config_key` sets does not bear on the bucket at `key`.
pub record Unaffected (config_key key : Text) : Type 0 where
  pub not_exact : config_key ≢ key
  pub not_tenant : config_key ≢ pair_key (head_of key) wildcard
  pub not_provider : config_key ≢ pair_key wildcard (tail_of key)

-- The four ways in which a key keeps its bucket when `c` is set.
module _ (c k : Text) where
  abbrev Differs : Text → Text → Type 0
  Differs s t = text_beq s t ≡ false

  tenant_lem : c ≡ pair_key (head_of k) wildcard → head_of c ≡ head_of k
  tenant_lem e = ap head_of e ∙ head_of-pair_key (head_of k) wildcard (has_bar-head_of k)

  tenant_tail_lem : c ≡ pair_key (head_of k) wildcard → tail_of c ≡ wildcard
  tenant_tail_lem e = ap tail_of e ∙ tail_of-pair_key (head_of k) wildcard (has_bar-head_of k)

  Unaffected-no_bar : has_bar c ≡ false → has_bar k ≡ true → Unaffected c k
  Unaffected-no_bar h hk = record {
    not_exact = λ e. ground (arith, ap has_bar e);
    not_tenant = λ e. ground (arith, ap has_bar e, has_bar-pair_key (head_of k) wildcard);
    not_provider = λ e. ground (arith, ap has_bar e);
  }

  Unaffected-by_tenant :
      Differs (head_of c) wildcard → Differs (head_of k) (head_of c) → Unaffected c k
  Unaffected-by_tenant hw hk = record {
    not_exact = λ e. ground (arith, ap head_of e, text_beq_iff (head_of k) (head_of c));
    not_tenant = λ e. ground (arith, tenant_lem e, text_beq_iff (head_of k) (head_of c));
    not_provider = λ e. ground (arith, ap head_of e, text_beq_iff (head_of c) wildcard);
  }

  Unaffected-by_provider :
      Differs (tail_of c) wildcard → Differs (tail_of k) (tail_of c) → Unaffected c k
  Unaffected-by_provider hw hk = record {
    not_exact = λ e. ground (arith, ap tail_of e, text_beq_iff (tail_of k) (tail_of c));
    not_tenant = λ e. ground (arith, tenant_tail_lem e, text_beq_iff (tail_of c) wildcard);
    not_provider = λ e. ground (arith, ap tail_of e, text_beq_iff (tail_of k) (tail_of c));
  }

  Unaffected-by_pair :
      Differs (head_of c) wildcard → Differs (tail_of c) wildcard → Differs c k → Unaffected c k
  Unaffected-by_pair hw pw hk = record {
    not_exact = λ e. ground (arith, text_beq_iff c k);
    not_tenant = λ e. ground (arith, tenant_tail_lem e, text_beq_iff (tail_of c) wildcard);
    not_provider = λ e. ground (arith, ap head_of e, text_beq_iff (head_of c) wildcard);
  }

module _ {F : Type 0} ⦃fl : Float F⦄ where
  lookup-drop_tenant :
      (t j : Text) (d : Dict Text (TokenBucket F))
      → lookup j (drop_tenant t d) ≡ (if head_of j == t then none else lookup j d)
  unfolding drop_tenant
  lookup-drop_tenant t j [] = ground arith
  lookup-drop_tenant t j ((k, b) ∷ d) = ground (arith, lookup-drop_tenant t j d, text_beq_iff k j)

  lookup-drop_provider :
      (p j : Text) (d d' : Dict Text (TokenBucket F))
      → drop_provider p d ≡ some d'
      → lookup j d' ≡ (if tail_of j == p then none else lookup j d)
  unfolding drop_provider
  lookup-drop_provider p j [] d' h = ground arith
  lookup-drop_provider p j ((k, b) ∷ d) d' h = elim (Option-cases (drop_provider p d)) [
    | inl e ↦ ground arith
    | inr (rest, e) ↦ ground (arith, lookup-drop_provider p j d rest e, text_beq_iff k j)
  ]

  -- Only keys without a bar make the comprehension raise.
  drop_provider_total :
      (p : Text) (d : Dict Text (TokenBucket F))
      → ((k : Text) → lookup k d ≢ none → has_bar k ≡ true)
      → drop_provider p d ≢ none
  unfolding drop_provider
  drop_provider_total p [] h e = cc
  drop_provider_total p ((k, b) ∷ d) h e = ground (
    arith,
    text_beq_iff k k,
    h k,
    drop_provider_total p d (λ j n. h j (λ m. ground (arith, n, text_beq_iff k j))),
  )

  -- A bucket that outlives the invalidation was there before, and `c` does not bear on it.
  lookup-invalidate_buckets :
      (c k : Text) (b : TokenBucket F) (d d' : Dict Text (TokenBucket F))
      → invalidate_buckets c d ≡ some d'
      → lookup k d' ≡ some b
      → (lookup k d ≡ some b) × (has_bar k ≡ true → Unaffected c k)
  unfolding invalidate_buckets
  lookup-invalidate_buckets c k b d d' h l = elim (Bool-cases (has_bar c)) [
    | inr nb ↦ (ground arith, Unaffected-no_bar c k nb)
    | inl yb ↦ elim (Bool-cases (head_of c == wildcard)) [
      | inl hw ↦ elim (Bool-cases (tail_of c == wildcard)) [
        | inl tw ↦ absurd (ground arith)
        | inr tw ↦ (
          ground (arith, lookup-drop_provider (tail_of c) k d d'),
          λ _.
              Unaffected-by_provider c k tw
                (ground (arith, lookup-drop_provider (tail_of c) k d d')),
        )
      ]
      | inr hw ↦ elim (Bool-cases (tail_of c == wildcard)) [
        | inl tw ↦ (
          ground (arith, lookup-drop_tenant (head_of c) k d),
          λ _. Unaffected-by_tenant c k hw (ground (arith, lookup-drop_tenant (head_of c) k d)),
        )
        | inr tw ↦ (
          ground (arith, lookup-erase c k d),
          λ _. Unaffected-by_pair c k hw tw (ground (arith, lookup-erase c k d)),
        )
      ]
    ]
  ]

  resolve_config-insert :
      (c k : Text) (cfg : BucketConfig F) (s : RateLimiterStore F)
      → Unaffected c k
      → resolve_config (record s { configs = insert c cfg s.configs }) k ≡ resolve_config s k
  unfolding resolve_config
  resolve_config-insert c k cfg s u = ground (
    arith,
    u.not_exact,
    u.not_tenant,
    u.not_provider,
    text_beq_iff c k,
    text_beq_iff c (pair_key (head_of k) wildcard),
    text_beq_iff c (pair_key wildcard (tail_of k)),
    lookup-insert c k cfg s.configs,
    lookup-insert c (pair_key (head_of k) wildcard) cfg s.configs,
    lookup-insert c (pair_key wildcard (tail_of k)) cfg s.configs,
  )

  -- Each bucket stands under a key with a bar, and has the limits that the configuration gives it.
  pub record IsCurrent (s : RateLimiterStore F) : Type 0 where
    pub barred : (k : Text) → lookup k s.buckets ≢ none → has_bar k ≡ true
    pub capacity :
        (k : Text) (b : TokenBucket F)
        → lookup k s.buckets ≡ some b
        → b.capacity ≡ (resolve_config s k).0.capacity
    pub refill_rate :
        (k : Text) (b : TokenBucket F)
        → lookup k s.buckets ≡ some b
        → b.refill_rate ≡ (resolve_config s k).0.refill_rate

  invalidate_buckets_total :
      (c : Text) (s : RateLimiterStore F) → IsCurrent s → invalidate_buckets c s.buckets ≢ none
  unfolding invalidate_buckets
  invalidate_buckets_total c s v e =
      ground (arith, drop_provider_total (tail_of c) s.buckets v.barred)

  -- Setting any limit never raises, and leaves no bucket with limits that it has made stale.
  pub set_config-IsCurrent :
      (c : Text) (cfg : BucketConfig F) (s : RateLimiterStore F)
      → IsCurrent s
      → let (s', done) = set_config c cfg s in (done ≡ true) × IsCurrent s'
  unfolding set_config resolve_config
  set_config-IsCurrent c cfg s v = elim (Option-cases (invalidate_buckets c s.buckets)) [
    | inl e ↦ absurd (invalidate_buckets_total c s v e)
    | inr (d', e) ↦
        let kept = λ (k : Text) (b : TokenBucket F) (l : lookup k d' ≡ some b).
          lookup-invalidate_buckets c k b s.buckets d' e l in
        let same = λ (k : Text) (b : TokenBucket F) (l : lookup k d' ≡ some b).
          resolve_config-insert c k cfg s
            ((kept k b l).1 (v.barred k (λ n. ground (arith, (kept k b l).0)))) in
        rw (e, with_buckets)
          (
            refl,
            record {
              barred = λ k n. elim (Option-cases (lookup k d')) [
                | inl none_there ↦ absurd (n none_there)
                | inr (b, l) ↦ v.barred k (λ m. ground (arith, (kept k b l).0))
              ];
              capacity = λ k b l.
                  v.capacity k b (kept k b l).0 ∙ ap (λ r. r.0.capacity) (sym (same k b l));
              refill_rate = λ k b l.
                  v.refill_rate k b (kept k b l).0 ∙ ap (λ r. r.0.refill_rate) (sym (same k b l));
            },
          )
  ]
