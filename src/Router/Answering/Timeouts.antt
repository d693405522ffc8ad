-- ===== src/Router/Answering/Timeouts.antt =====
-- How often an expired request is counted.
use intelli_route_team.Common.{
  ℕ, ◌+◌, ◌≡◌, Bool, true, map, if◌then◌else◌, count_by, some, List, [], ◌∷◌, Text, arith, refl, ap,
  ◌∙◌,
}
use intelli_route_team.Common.Float.{Float}
use intelli_route_team.Router.Provider.{CompletionRequest}
use intelli_route_team.Router.Queue.{QueuedRequest, RequestQueue, record_timeout}
use intelli_route_team.Router.Queue.View.{view}
use intelli_route_team.Router.Dispatch.{RouterState, record_brownout_result}
use intelli_route_team.Router.Worker.{has_expired, worker_passes}
use intelli_route_team.Router.Worker.Drain.{outcomes, is_expired, drain}
use intelli_route_team.Router.Answering.{
  WaitEnd, late, expired_in_queue, status, set_by_worker, end_wait,
}

module _ {F : Type 0} ⦃fl : Float F⦄ where
  worker_passes-expired :
      (now : ℕ) (q : RequestQueue (CompletionRequest F)) (x : QueuedRequest (CompletionRequest F))
      (xs : List (QueuedRequest (CompletionRequest F)))
      → view q ≡ x ∷ xs
      → has_expired q.config.timeout_ms now x ≡ true
      → (worker_passes (now ∷ []) q).0.timeout_count ≡ q.timeout_count + 1
  worker_passes-expired now q x xs h late_x =
      let timeout_ms = q.config.timeout_ms in
      let (passes, _, counted) = drain (now ∷ []) q in
      let one : count_by is_expired (outcomes timeout_ms (now ∷ []) (x ∷ xs)) ≡ 1 =
        rw late_x refl in
      let counts =
        ap (count_by is_expired) (passes ∙ ap (outcomes timeout_ms (now ∷ [])) h) ∙ one in
      omega (arith, counted, counts)

  worker_passes-ends :
      {A : Type 0} (ran : WaitEnd A) (now : ℕ) (q : RequestQueue (CompletionRequest F))
      (x : QueuedRequest (CompletionRequest F)) (xs : List (QueuedRequest (CompletionRequest F)))
      → view q ≡ x ∷ xs
      → has_expired q.config.timeout_ms now x ≡ true
      → map (set_by_worker ran) (worker_passes (now ∷ []) q).1 ≡ some expired_in_queue ∷ []
  worker_passes-ends ran now q x xs h late_x =
      ap (map (set_by_worker ran))
        ((drain (now ∷ []) q).0 ∙ ap (outcomes q.config.timeout_ms (now ∷ [])) h)
      ∙ rw late_x refl

  -- Let the first request that waits in the queue have expired. If its wait in `complete` ends late
  -- before a worker takes it, the client gets a 504 and the two count it as two timeouts. If a
  -- worker takes it first, the wait ends with the worker's TimeoutError: again a 504 and two
  -- timeouts where that is asyncio.TimeoutError (Python 3.11 on), else a 502 and one timeout.
  pub expired_counts :
      (A : Type 0) (same_class : Bool) (ran : WaitEnd A) (tenant_id : Text) (now : ℕ)
      (s : RouterState F) (x : QueuedRequest (CompletionRequest F))
      (xs : List (QueuedRequest (CompletionRequest F)))
      → view s.request_queue ≡ x ∷ xs
      → has_expired s.request_queue.config.timeout_ms now x ≡ true
      → let before = s.request_queue.timeout_count in
        let (gone, answer) = end_wait {A = A} same_class tenant_id late s in
        let (q, passes) = worker_passes (now ∷ []) s.request_queue in
        let (told, answer') =
          end_wait {A = A} same_class tenant_id expired_in_queue (record s { request_queue = q }) in
        (answer ≡ status 504)
        × ((worker_passes (now ∷ []) gone.request_queue).0.timeout_count ≡ before + 2)
        × (map (set_by_worker ran) passes ≡ some expired_in_queue ∷ [])
        × (answer' ≡ status (if same_class then 504 else 502))
        × (told.request_queue.timeout_count ≡ before + (if same_class then 2 else 1))
  unfolding end_wait record_brownout_result record_timeout view
  expired_counts A same_class ran tenant_id now s x xs h late_x = (
    refl,
    omega (arith, worker_passes-expired now (record_timeout s.request_queue) x xs h late_x),
    worker_passes-ends ran now s.request_queue x xs h late_x,
    ground arith,
    ground (arith, worker_passes-expired now s.request_queue x xs h late_x),
  )
