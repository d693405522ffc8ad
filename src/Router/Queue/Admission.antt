-- ===== src/Router/Queue/Admission.antt =====
-- Which requests are taken in.
use intelli_route_team.Common.{
  ℕ, ◌+◌, ◌≡◌, Bool, true, false, not, ◌&&◌, ◌||◌, [], ◌∷◌, Text, arith, ltb, length, length-append,
  if◌then◌else◌,
}
use intelli_route_team.Router.Queue.{
  Priority, high, medium, low, is_low, RequestQueue, total_depth, make_request, try_enqueue, Answer,
  queued, refused,
}

abbrev pub accepted : {R : Type 0} → Answer R → Bool
accepted (queued x) = true
accepted (refused r) = false

module _ {R : Type 0} where
  -- A request is taken in exactly when the queue is below its depth and, for low priority, also
  -- below the shedding threshold and the cap. A refusal adds one to the count of shed requests and
  -- leaves the depth; an acceptance adds one to the depth and leaves the count.
  pub try_enqueue-accepts :
      (id : Text) (req : R) (p : Priority) (now : ℕ) (l : Bool) (q : RequestQueue R)
      → let (q', a) = try_enqueue id req p now l q in
        (accepted a ≡ (
          ltb (total_depth q) q.config.max_depth
          && (not (is_low p)
              || (ltb (total_depth q) q.config.shed_threshold
                  && ltb (length q.low_queue) q.config.max_low_priority))))
        × (q'.shed_count ≡ (if accepted a then q.shed_count else q.shed_count + 1))
        × (total_depth q' ≡ (if accepted a then total_depth q + 1 else total_depth q))
  unfolding try_enqueue
  try_enqueue-accepts id req high now l q =
      let x = make_request id req high now l in ground (arith, length-append q.high_queue (x ∷ []))
  try_enqueue-accepts id req medium now l q =
      let x = make_request id req medium now l in
      ground (arith, length-append q.medium_queue (x ∷ []))
  try_enqueue-accepts id req low now l q =
      let x = make_request id req low now l in ground (arith, length-append q.low_queue (x ∷ []))
