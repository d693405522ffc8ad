-- ===== src/RateLimiter/Bucket.antt =====
-- `TokenBucket` of intelliroute/rate_limiter/token_bucket.py.
pub mod Bounds
pub mod Granted
use intelli_route_team.Common.{ℕ, ◌+◌, Bool, true, false, Option, none, some, ◌≡◌, if◌then◌else◌}
use intelli_route_team.Common.Float.{Float, nought, of_ℕ, flt, fmax, fmin}

pub record TokenBucket (F : Type 0) : Type 0 where
  pub capacity : F
  pub refill_rate : F
  pub tokens : F
  pub updated_at : Option F

pub record BucketConfig (F : Type 0) : Type 0 where
  pub capacity : F
  pub refill_rate : F

-- `(allowed, remaining, retry_after_ms)`
pub record Decision (F : Type 0) : Type 0 where
  pub allowed : Bool
  pub remaining : F
  pub retry_after_ms : ℕ

module _ {F : Type 0} ⦃fl : Float F⦄ where
  open fl use {add, sub, mul, div, fle, trunc}

  -- `TokenBucket(capacity=…, refill_rate=…)`
  unfoldable pub fresh : BucketConfig F → TokenBucket F
  fresh c = record {
    capacity = c.capacity;
    refill_rate = c.refill_rate;
    tokens = nought;
    updated_at = none;
  }

  abbrev level_after : TokenBucket F → Option F → F → F
  level_after b none now = b.capacity
  level_after b (some t) now =
      let elapsed = fmax nought (sub now t) in
      fmin b.capacity (add b.tokens (mul elapsed b.refill_rate))

  -- `_refill`
  unfoldable pub refill : F → TokenBucket F → TokenBucket F
  refill now b = record b { tokens = level_after b b.updated_at now; updated_at = some now }

  abbrev retry_after : TokenBucket F → F → ℕ
  retry_after b deficit =
      if fle b.refill_rate nought
      then 10000
      else trunc (mul (div deficit b.refill_rate) (of_ℕ 1000)) + 1

  unfoldable pub try_consume : F → F → TokenBucket F → TokenBucket F × Decision F
  unfolding refill
  try_consume amount now b =
      let r = refill now b in
      if fle amount r.tokens
      then (
        record r { tokens = sub r.tokens amount },
        record { allowed = true; remaining = sub r.tokens amount; retry_after_ms = 0 },
      )
      else (
        r,
        record {
          allowed = false;
          remaining = r.tokens;
          retry_after_ms = retry_after r (sub amount r.tokens);
        },
      )
