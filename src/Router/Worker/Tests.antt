-- ===== src/Router/Worker/Tests.antt =====
-- The passes of the workers at a concrete queue.
use intelli_route_team.Common.{ℕ, ◌+◌, ◌≡◌, refl, true, List, [], ◌∷◌, length, drop, count_by}
use intelli_route_team.Common.Strings.{text}
use intelli_route_team.Router.Queue.{
  high, low, QueueConfig, QueuedRequest, RequestQueue, new_queue, make_request, dequeue_rounds,
  pop_next, record_timeout,
}
use intelli_route_team.Router.Queue.View.{view}
use intelli_route_team.Router.Worker.{idle, expired, executed, worker_passes}
use intelli_route_team.Router.Worker.Drain.{outcomes, is_expired, drain}

abbrev config : QueueConfig
config = record { max_depth = 3; max_low_priority = 1; shed_threshold = 2; timeout_ms = 5000 }

abbrev stale : QueuedRequest ℕ
stale = make_request (text "a") 17 low 100 true

abbrev urgent : QueuedRequest ℕ
urgent = make_request (text "b") 18 high 400 true

abbrev waiting : RequestQueue ℕ
waiting = record (new_queue config) {
  high_queue = urgent ∷ [];
  low_queue = stale ∷ [];
  event = true;
}

abbrev times : List ℕ
times = 5200 ∷ 5200 ∷ 5300 ∷ []

drain_example :
    let (q', passes) = worker_passes times waiting in
    (passes ≡ outcomes 5000 times (view waiting))
    × (view q' ≡ drop (length times) (view waiting))
    × (q'.timeout_count ≡ 0 + count_by is_expired passes)
drain_example = drain times waiting

-- The urgent request is executed, the stale one has expired, and the third pass finds nothing.
three_passes : (worker_passes times waiting).1 ≡ executed urgent ∷ expired stale ∷ idle ∷ []
unfolding worker_passes dequeue_rounds pop_next record_timeout
three_passes = refl
