-- ===== src/HealthMonitor/Breaker/Trips.antt =====
-- When a breaker opens, how long it stays open, and when it closes again.
use intelli_route_team.Common.{
  ◌+◌, ◌<◌, ◌≡◌, refl, false, List, [], ◌∷◌, map, arith, length, ltb, if◌then◌else◌,
}
use intelli_route_team.Common.Float.{Float}
use intelli_route_team.HealthMonitor.Breaker.{
  CircuitBreaker, closed, open_, half_open, cooled_down, allow_request, record_success,
  record_failure, Event, ask, success, failure, step, run,
}

module _ {F : Type 0} ⦃fl : Float F⦄ where
  open fl use {sub, fle}

  -- Every request among the events comes before `t` plus the open duration `d`.
  abbrev pub IsEarly : F → F → List (Event F) → Type 0
  IsEarly d t [] = Unit
  IsEarly d t (ask now ∷ es) = (fle d (sub now t) ≡ false) × IsEarly d t es
  IsEarly d t (success now ∷ es) = IsEarly d t es
  IsEarly d t (failure now ∷ es) = IsEarly d t es

  stays_open :
      (es : List (Event F)) (b : CircuitBreaker F)
      → b.state ≡ open_
      → IsEarly b.config.open_duration_s b.opened_at es
      → ((run es b).state ≡ open_)
        × ((run es b).opened_at ≡ b.opened_at)
        × ((run es b).config ≡ b.config)
  unfolding run step allow_request record_success record_failure
  stays_open [] b o h = (o, refl, refl)
  stays_open (ask now ∷ es) b o h = ground (arith, stays_open es (allow_request now b).0)
  stays_open (success now ∷ es) b o h = ground (arith, stays_open es (record_success b))
  stays_open (failure now ∷ es) b o h = ground (arith, stays_open es (record_failure now b))

  -- An open breaker whose requests all come before the open duration has passed stays open and
  -- refuses the next such request, whatever outcomes are reported meanwhile.
  pub open_refuses :
      (es : List (Event F)) (now : F) (b : CircuitBreaker F)
      → b.state ≡ open_
      → IsEarly b.config.open_duration_s b.opened_at es
      → cooled_down now b ≡ false
      → allow_request now (run es b) ≡ (run es b, false)
  unfolding allow_request
  open_refuses es now b o h early = ground (arith, stays_open es b o h)

  open_under_failures :
      (ts : List F) (b : CircuitBreaker F)
      → b.state ≡ open_
      → (run (map failure ts) b).state ≡ open_
  unfolding run step record_failure
  open_under_failures [] b o = o
  open_under_failures (t ∷ ts) b o = open_under_failures ts (record_failure t b) (ground arith)

  -- A run of failures opens a closed breaker, whose failures in a row are below the threshold,
  -- exactly when it brings them up to the threshold.
  pub failures_trip :
      (ts : List F) (b : CircuitBreaker F)
      → b.state ≡ closed
      → b.consecutive_failures < b.config.failure_threshold
      → (run (map failure ts) b).state ≡ (
          if ltb (b.consecutive_failures + length ts) b.config.failure_threshold
          then closed
          else open_)
  unfolding run step record_failure
  failures_trip [] b c h = ground arith
  failures_trip (t ∷ ts) b c h =
      ground
        (arith, failures_trip ts (record_failure t b), open_under_failures ts (record_failure t b))

  closed_under_successes :
      (ts : List F) (b : CircuitBreaker F)
      → b.state ≡ closed
      → (run (map success ts) b).state ≡ closed
  unfolding run step record_success
  closed_under_successes [] b o = o
  closed_under_successes (t ∷ ts) b o = closed_under_successes ts (record_success b) (ground arith)

  probes_count :
      (ts : List F) (b : CircuitBreaker F)
      → b.state ≡ half_open
      → b.half_open_successes < b.config.half_open_success_required
      → (run (map success ts) b).state ≡ (
          if ltb (b.half_open_successes + length ts) b.config.half_open_success_required
          then half_open
          else closed)
  unfolding run step record_success
  probes_count [] b c h = ground arith
  probes_count (t ∷ ts) b c h =
      ground
        (arith, probes_count ts (record_success b), closed_under_successes ts (record_success b))

  half_open_failure :
      (now : F) (b : CircuitBreaker F)
      → b.state ≡ half_open
      → ((record_failure now b).state ≡ open_) × ((record_failure now b).opened_at ≡ now)
  unfolding record_failure
  half_open_failure now b h = ground arith

  -- From a half-open breaker with fewer successful probes than required, a run of successes closes
  -- it exactly when it brings the probes up to the number required; after successes that do not, a
  -- failure opens it again from that time on.
  pub probes_decide :
      (ts us : List F) (now : F) (b : CircuitBreaker F)
      → b.state ≡ half_open
      → b.half_open_successes < b.config.half_open_success_required
      → b.half_open_successes + length us < b.config.half_open_success_required
      → let b' = record_failure now (run (map success us) b) in
        ((run (map success ts) b).state ≡ (
          if ltb (b.half_open_successes + length ts) b.config.half_open_success_required
          then half_open
          else closed))
        × (b'.state ≡ open_)
        × (b'.opened_at ≡ now)
  probes_decide ts us now b c h k =
      let (opens, at_now) =
        half_open_failure now (run (map success us) b) (ground (arith, probes_count us b c h)) in
      (probes_count ts b c h, opens, at_now)
