-- ===== src/RateLimiter/Bucket/Bounds.antt =====
-- The level of a bucket stays between 0 and its capacity.
use intelli_route_team.Common.{true, Option, none, some, ◌≡◌, refl, arith}
use intelli_route_team.Common.Float.{Float, IsFloat, nought, fmax, le-fmax, fmin-le, le-fmin}
use intelli_route_team.RateLimiter.Bucket.{TokenBucket, BucketConfig, fresh, refill, try_consume}

pub record IsValid {F : Type 0} ⦃fl : Float F⦄ (b : TokenBucket F) : Type 0 where
  pub rate_nonneg : fl.fle nought b.refill_rate ≡ true
  pub tokens_nonneg : fl.fle nought b.tokens ≡ true
  pub within : fl.fle b.tokens b.capacity ≡ true

module _ {F : Type 0} ⦃fl : Float F⦄ (laws : IsFloat F) where
  open fl use {add, sub, mul, fle}
  open laws use {fle_refl, fle_trans, fle_total, add_grows, sub_nonneg, sub_shrinks, mul_nonneg}

  pub fresh-IsValid :
      (c : BucketConfig F)
      → fle nought c.capacity ≡ true
      → fle nought c.refill_rate ≡ true
      → IsValid (fresh c)
  unfolding fresh
  fresh-IsValid c h k = record { rate_nonneg = k; tokens_nonneg = fle_refl nought; within = h }

  level_grows :
      (b : TokenBucket F) (t now : F)
      → IsValid b
      → fle nought (add b.tokens (mul (fmax nought (sub now t)) b.refill_rate)) ≡ true
  level_grows b t now v =
      let elapsed = fmax nought (sub now t) in
      fle_trans _ _ _ v.tokens_nonneg (
        add_grows b.tokens (mul elapsed b.refill_rate)
          (mul_nonneg elapsed b.refill_rate (le-fmax laws nought (sub now t)) v.rate_nonneg))

  refill_cases :
      (b : TokenBucket F) (u : Option F) (now : F)
      → b.updated_at ≡ u
      → IsValid b
      → IsValid (refill now b)
  unfolding refill
  refill_cases b none now e v =
      let full = fle_trans _ _ _ v.tokens_nonneg v.within in ground (arith, fle_refl b.capacity)
  refill_cases b (some t) now e v =
      let full = fle_trans _ _ _ v.tokens_nonneg v.within in
      let x = add b.tokens (mul (fmax nought (sub now t)) b.refill_rate) in
      ground (
        arith,
        fmin-le laws b.capacity x,
        le-fmin laws b.capacity x nought full (level_grows b t now v),
      )

  pub refill-IsValid : (b : TokenBucket F) (now : F) → IsValid b → IsValid (refill now b)
  refill-IsValid b now v = refill_cases b b.updated_at now refl v

  -- A request for an amount of at least 0 leaves a valid bucket valid, whether it is granted or
  -- refused, and the remaining level that is reported is the new level of the bucket.
  pub try_consume-IsValid :
      (amount now : F) (b : TokenBucket F)
      → IsValid b
      → fle nought amount ≡ true
      → let (b', d) = try_consume amount now b in IsValid b' × (d.remaining ≡ b'.tokens)
  unfolding try_consume
  try_consume-IsValid amount now b v h =
      let r = refill now b in
      let w = refill-IsValid b now v in
      ground (
        arith,
        w,
        sub_nonneg r.tokens amount,
        sub_shrinks r.tokens amount h,
        fle_trans (sub r.tokens amount) r.tokens r.capacity,
      )
