-- ===== src/RateLimiter/Bucket/Granted.antt =====
-- What a bucket grants over a run of requests, in whole numbers.
use intelli_route_team.Common.{
  ℕ, ◌+◌, ◌-◌, ◌*◌, ◌≤◌, some, ◌≡◌, List, [], ◌∷◌, arith, if◌then◌else◌,
}
use intelli_route_team.Common.Float.{nat_float}
use intelli_route_team.RateLimiter.Bucket.{TokenBucket, Decision, try_consume}

-- Requests as `(now, amount)`: the bucket after them, and the tokens granted in all.
abbrev pub granted_by : ℕ → Decision ℕ → ℕ
granted_by amount d = if d.allowed then amount else 0

pub run : List (ℕ × ℕ) → TokenBucket ℕ → TokenBucket ℕ × ℕ
run [] b = (b, 0)
run ((now, amount) ∷ reqs) b =
    let (b', d) = try_consume amount now b in
    let (c, total) = run reqs b' in (c, granted_by amount d + total)

-- The clock does not go back, and ends at `last`.
abbrev pub IsTimeline : ℕ → List (ℕ × ℕ) → ℕ → Type 0
IsTimeline t [] last = t ≡ last
IsTimeline t ((now, _) ∷ reqs) last = (t ≤ now) × IsTimeline now reqs last

granted_step :
    (t now amount : ℕ) (b : TokenBucket ℕ)
    → b.updated_at ≡ some t
    → t ≤ now
    → let (b', d) = try_consume amount now b in
      (b'.updated_at ≡ some now)
      × (b'.refill_rate ≡ b.refill_rate)
      × (granted_by amount d + b'.tokens ≤ b.tokens + (now - t) * b.refill_rate)
unfolding try_consume
granted_step t now amount b e h = ground arith

split_product :
    (t now last r : ℕ) → t ≤ now → now ≤ last → (now - t) * r + (last - now) * r ≡ (last - t) * r
split_product t now last r h k = grind arith

IsTimeline-le : (t : ℕ) (reqs : List (ℕ × ℕ)) (last : ℕ) → IsTimeline t reqs last → t ≤ last
IsTimeline-le t [] last h = omega arith
IsTimeline-le t (q ∷ reqs) last h = omega (arith, IsTimeline-le q.0 reqs last h.1)

-- In whole numbers, over any run of requests on a clock that does not go back, from a bucket that
-- was updated at the start of the run, the tokens granted and those left come to at most the
-- tokens at the start and one refill rate for each second of the run.
pub granted-le :
    (t : ℕ) (reqs : List (ℕ × ℕ)) (last : ℕ) (b : TokenBucket ℕ)
    → b.updated_at ≡ some t
    → IsTimeline t reqs last
    → let (b', total) = run reqs b in total + b'.tokens ≤ b.tokens + (last - t) * b.refill_rate
unfolding run
granted-le t [] last b e h = omega arith
granted-le t ((now, amount) ∷ reqs) last b e h =
    let (b', d) = try_consume amount now b in
    let (stamp, rate, step) = granted_step t now amount b e h.0 in
    let rest = granted-le now reqs last b' stamp h.1 in
    omega (
      arith,
      rw rate at rest,
      split_product t now last b.refill_rate h.0 (IsTimeline-le now reqs last h.1),
    )
