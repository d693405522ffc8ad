-- ===== src/Router/Worker/Drain.antt =====
-- The workers drain the queue in the order of service.
use intelli_route_team.Common.{
  ℕ, zero, suc, ◌+◌, ◌≡◌, ◌∙◌, ap, refl, Bool, true, false, Option, none, some, List, [], ◌∷◌,
  arith, length, drop, count_by, if◌then◌else◌,
}
use intelli_route_team.Router.Queue.{
  RequestQueue, QueueConfig, QueuedRequest, dequeue, dequeue_rounds, pop_next, record_timeout,
}
use intelli_route_team.Router.Queue.View.{view, first, view-pop_next}
use intelli_route_team.Router.Worker.{
  Pass, idle, expired, executed, has_expired, handle, worker_pass, worker_passes,
}

module _ {R : Type 0} where
  -- What has to become of the requests that wait, the first at the first time and so on.
  abbrev pub outcomes : ℕ → List ℕ → List (QueuedRequest R) → List (Pass R)
  outcomes timeout_ms [] xs = []
  outcomes timeout_ms (now ∷ times) [] = idle ∷ outcomes timeout_ms times []
  outcomes timeout_ms (now ∷ times) (x ∷ xs) =
      (if has_expired timeout_ms now x then expired x else executed x)
      ∷ outcomes timeout_ms times xs

  abbrev pub is_expired : Pass R → Bool
  is_expired idle = false
  is_expired (expired x) = true
  is_expired (executed x) = false

  -- A removal leaves the settings and the counter of expired requests alone.
  pop_next-keeps :
      (q : RequestQueue R)
      → ((pop_next q).0.config ≡ q.config) × ((pop_next q).0.timeout_count ≡ q.timeout_count)
  unfolding pop_next
  pop_next-keeps q = ground arith

  dequeue_rounds-keeps :
      (n : ℕ) (q : RequestQueue R)
      → ((dequeue_rounds (λ m r. r) n q).0.config ≡ q.config)
        × ((dequeue_rounds (λ m r. r) n q).0.timeout_count ≡ q.timeout_count)
  unfolding dequeue_rounds
  dequeue_rounds-keeps zero q = (refl, refl)
  dequeue_rounds-keeps (suc n) q =
      ground (arith, pop_next-keeps q, dequeue_rounds-keeps n (pop_next q).0)

  dequeue_rounds-view :
      (n : ℕ) (q : RequestQueue R)
      → let (q', item) = dequeue_rounds (λ m r. r) (suc n) q in (item, view q') ≡ first (view q)
  unfolding dequeue_rounds first
  dequeue_rounds-view zero q = ground (arith, view-pop_next q)
  dequeue_rounds-view (suc n) q =
      ground (arith, view-pop_next q, dequeue_rounds-view n (pop_next q).0)

  abbrev outcome : ℕ → ℕ → Option (QueuedRequest R) → Pass R
  outcome timeout_ms now none = idle
  outcome timeout_ms now (some x) = if has_expired timeout_ms now x then expired x else executed x

  handle-keeps :
      (now : ℕ) (item : Option (QueuedRequest R)) (q : RequestQueue R)
      → let (q', pass) = handle now (q, item) in
        (pass ≡ outcome q.config.timeout_ms now item)
        × (view q' ≡ view q)
        × (q'.config ≡ q.config)
        × (q'.timeout_count ≡ q.timeout_count + (if is_expired pass then 1 else 0))
  unfolding record_timeout view
  handle-keeps now none q = (refl, refl, refl, omega arith)
  handle-keeps now (some x) q = ground arith

  pass-lem :
      (now : ℕ) (q : RequestQueue R)
      → let (q', pass) = worker_pass (λ m r. r) now q in
        (pass ≡ outcome q.config.timeout_ms now (first (view q)).0)
        × (view q' ≡ (first (view q)).1)
        × (q'.config ≡ q.config)
        × (q'.timeout_count ≡ q.timeout_count + (if is_expired pass then 1 else 0))
  unfolding worker_pass
  pass-lem now q =
      let q' = (dequeue (λ m r. r) q).0 in
      let item = (dequeue (λ m r. r) q).1 in
      let v = dequeue_rounds-view 9 q in
      let k = dequeue_rounds-keeps 10 q in
      let (p, w, c, t) = handle-keeps now item q' in
      (
        p
            ∙ (ap (λ (s : QueueConfig). outcome s.timeout_ms now item) k.0
                ∙ ap (λ r. outcome q.config.timeout_ms now r.0) v),
        w ∙ ap (λ r. r.1) v,
        c ∙ k.0,
        t ∙ ap (λ n. n + (if is_expired (handle now (q', item)).1 then 1 else 0)) k.1,
      )

  outcomes-first :
      (timeout_ms now : ℕ) (times : List ℕ) (xs : List (QueuedRequest R))
      → outcome timeout_ms now (first xs).0 ∷ outcomes timeout_ms times (first xs).1
        ≡ outcomes timeout_ms (now ∷ times) xs
  unfolding first
  outcomes-first timeout_ms now times [] = refl
  outcomes-first timeout_ms now times (x ∷ xs) = refl

  drop-first : (n : ℕ) (xs : List (QueuedRequest R)) → drop n (first xs).1 ≡ drop (suc n) xs
  unfolding first
  drop-first zero [] = refl
  drop-first (suc n) [] = refl
  drop-first n (x ∷ xs) = refl

  -- While no request arrives, passes at the times `times`, of one worker or of several, take the
  -- requests in the order of service, one each: a request that waited longer than the timeout at its time is expired, any
  -- other is executed, a pass on an empty queue is idle, the rest still waits in its order, and the
  -- counter of timeouts grows by the number of the expired.
  pub drain :
      (times : List ℕ) (q : RequestQueue R)
      → let (q', passes) = worker_passes times q in
        (passes ≡ outcomes q.config.timeout_ms times (view q))
        × (view q' ≡ drop (length times) (view q))
        × (q'.timeout_count ≡ q.timeout_count + count_by is_expired passes)
  unfolding worker_passes
  drain [] q = (refl, refl, omega arith)
  drain (now ∷ times) q =
      let q' = (worker_pass (λ m r. r) now q).0 in
      let (p, w, c, t) = pass-lem now q in
      let (ps, ws, ts) = drain times q' in
      (
        ap (λ pass. pass ∷ (worker_passes times q').1) p
            ∙ (ap (λ passes. outcome q.config.timeout_ms now (first (view q)).0 ∷ passes)
                  (ps
                    ∙ (ap (λ (s : QueueConfig). outcomes s.timeout_ms times (view q')) c
                        ∙ ap (λ xs. outcomes q.config.timeout_ms times xs) w))
                ∙ outcomes-first q.config.timeout_ms now times (view q)),
        ws ∙ (ap (λ xs. drop (length times) xs) w ∙ drop-first (length times) (view q)),
        ground (arith, t, ts),
      )
