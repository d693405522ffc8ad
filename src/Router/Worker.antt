-- ===== src/Router/Worker.antt =====
-- `_queue_worker` of intelliroute/router/main.py: what one pass of its loop does with the queue. The
-- clock counts whole milliseconds, where the source has fractions of them. The execution of a request and its future are outside the queue.
pub mod Drain
mod Tests
use intelli_route_team.Common.{
  ℕ, ◌-◌, Bool, true, false, Option, none, some, List, [], ◌∷◌, ltb, if◌then◌else◌,
}
use intelli_route_team.Router.Queue.{RequestQueue, QueuedRequest, dequeue, record_timeout}

-- What became of the request of a pass.
pub data Pass (R : Type 0) : Type 0 where
  idle : Pass R
  expired : QueuedRequest R → Pass R
  executed : QueuedRequest R → Pass R

module _ {R : Type 0} where
  abbrev pub has_expired : ℕ → ℕ → QueuedRequest R → Bool
  has_expired timeout_ms now x = ltb timeout_ms (now - x.enqueued_at)

  abbrev pub handle : ℕ → RequestQueue R × Option (QueuedRequest R) → RequestQueue R × Pass R
  handle now (q, none) = (q, idle)
  handle now (q, some x) =
      if has_expired q.config.timeout_ms now x
      then (record_timeout q, expired x)
      else (q, executed x)

  -- One pass of `while True`, at the time `now`; `between` is what others do to the queue while
  -- `dequeue` sleeps.
  unfoldable pub worker_pass :
      (ℕ → RequestQueue R → RequestQueue R) → ℕ → RequestQueue R → RequestQueue R × Pass R
  worker_pass between now q = handle now (dequeue between q)

  -- Passes at the given times, of one worker or of several, while no request arrives.
  unfoldable pub worker_passes : List ℕ → RequestQueue R → RequestQueue R × List (Pass R)
  unfolding worker_pass
  worker_passes [] q = (q, [])
  worker_passes (now ∷ times) q =
      let (q', pass) = worker_pass (λ n r. r) now q in
      let (q'', passes) = worker_passes times q' in (q'', pass ∷ passes)
