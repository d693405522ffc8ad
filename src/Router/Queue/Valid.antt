-- ===== src/Router/Queue/Valid.antt =====
-- The bounds of the queue.
use intelli_route_team.Common.{
  ℕ, ◌≤◌, ◌≡◌, Bool, List, [], ◌∷◌, ◌++◌, Text, arith, leb, All, length, length-append,
}
use intelli_route_team.Router.Queue.{
  Priority, high, medium, low, QueuedRequest, RequestQueue, total_depth, make_request, try_enqueue,
  pop_next, record_timeout, reset, Call, enqueue, take_next, time_out, clear, perform, perform_all,
}

-- Every request of the list has the priority.
abbrev pub AllOf : {R : Type 0} → Priority → List (QueuedRequest R) → Type 0
AllOf p = All (λ x. x.priority ≡ p)

module _ {R : Type 0} where
  pub AllOf-append :
      (p : Priority) (xs : List (QueuedRequest R)) (x : QueuedRequest R)
      → AllOf p xs
      → x.priority ≡ p
      → AllOf p (xs ++ (x ∷ []))
  AllOf-append p [] x h e = (e, tt)
  AllOf-append p (y ∷ ys) x h e = (h.0, AllOf-append p ys x h.1 e)

  pub record IsValid (q : RequestQueue R) : Type 0 where
    pub depth : total_depth q ≤ q.config.max_depth
    pub low_depth : length q.low_queue ≤ q.config.max_low_priority
    pub signalled : q.event ≡ leb 1 (total_depth q)
    pub all_high : AllOf high q.high_queue
    pub all_medium : AllOf medium q.medium_queue
    pub all_low : AllOf low q.low_queue

  try_enqueue-IsValid :
      (id : Text) (req : R) (p : Priority) (now : ℕ) (l : Bool) (q : RequestQueue R)
      → IsValid q
      → IsValid (try_enqueue id req p now l q).0
  unfolding try_enqueue
  try_enqueue-IsValid id req high now l q v =
      let x = make_request id req high now l in
      ground (arith, length-append q.high_queue (x ∷ []), AllOf-append high q.high_queue x)
  try_enqueue-IsValid id req medium now l q v =
      let x = make_request id req medium now l in
      ground (arith, length-append q.medium_queue (x ∷ []), AllOf-append medium q.medium_queue x)
  try_enqueue-IsValid id req low now l q v =
      let x = make_request id req low now l in
      ground (arith, length-append q.low_queue (x ∷ []), AllOf-append low q.low_queue x)

  pop_next-IsValid : (q : RequestQueue R) → IsValid q → IsValid (pop_next q).0
  unfolding pop_next
  pop_next-IsValid q v = ground arith

  perform-IsValid : (c : Call R) (q : RequestQueue R) → IsValid q → IsValid (perform c q)
  unfolding perform record_timeout reset
  perform-IsValid (enqueue id req p now l) q v = try_enqueue-IsValid id req p now l q v
  perform-IsValid take_next q v = pop_next-IsValid q v
  perform-IsValid time_out q v = ground arith
  perform-IsValid clear q v = ground arith

  -- Any calls keep the queue within its depth and its cap for low priority, keep every request in
  -- the list of its priority, and keep the event set exactly while a request waits.
  pub perform_all-IsValid :
      (cs : List (Call R)) (q : RequestQueue R) → IsValid q → IsValid (perform_all cs q)
  unfolding perform_all
  perform_all-IsValid [] q v = v
  perform_all-IsValid (c ∷ cs) q v = perform_all-IsValid cs (perform c q) (perform-IsValid c q v)
