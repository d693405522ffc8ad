-- ===== src/Router/Queue.antt =====
-- `RequestQueue` of intelliroute/router/queue.py. The lock makes each method one step. `R` is the
-- type of a completion request, which the queue only carries.
pub mod Valid
pub mod Admission
pub mod View
mod Tests
use intelli_route_team.Common.{
  ℕ, zero, suc, ◌+◌, Bool, true, false, ◌&&◌, ◌||◌, Option, none, some, List, [], ◌∷◌, ◌++◌, Text,
  leb, length, if◌then◌else◌,
}

pub data Priority : Type 0 where
  high medium low : Priority

pub record QueueConfig : Type 0 where
  pub max_depth : ℕ
  pub max_low_priority : ℕ
  pub shed_threshold : ℕ
  pub timeout_ms : ℕ

pub record QueuedRequest (R : Type 0) : Type 0 where
  pub priority : Priority
  pub enqueued_at : ℕ
  pub request_id : Text
  pub request : R
  pub has_future : Bool

pub record QueueStats : Type 0 where
  pub total_depth : ℕ
  pub high_depth : ℕ
  pub medium_depth : ℕ
  pub low_depth : ℕ
  pub shed_count : ℕ
  pub timeout_count : ℕ

-- The three messages of a refusal, with the numbers that they print.
pub data Refusal : Type 0 where
  shed_full : ℕ → ℕ → Refusal
  low_priority_cap : ℕ → ℕ → Refusal
  max_full : ℕ → ℕ → Refusal

pub record RequestQueue (R : Type 0) : Type 0 where
  pub config : QueueConfig
  pub high_queue : List (QueuedRequest R)
  pub medium_queue : List (QueuedRequest R)
  pub low_queue : List (QueuedRequest R)
  pub event : Bool
  pub shed_count : ℕ
  pub timeout_count : ℕ

-- The answer of `try_enqueue`: the request that was queued, or why not.
pub data Answer (R : Type 0) : Type 0 where
  queued : QueuedRequest R → Answer R
  refused : Refusal → Answer R

abbrev pub is_low : Priority → Bool
is_low low = true
is_low _ = false

module _ {R : Type 0} where
  abbrev pub total_depth : RequestQueue R → ℕ
  total_depth q = length q.high_queue + length q.medium_queue + length q.low_queue

  abbrev pub new_queue : QueueConfig → RequestQueue R
  new_queue c = record {
    config = c;
    high_queue = [];
    medium_queue = [];
    low_queue = [];
    event = false;
    shed_count = 0;
    timeout_count = 0;
  }

  abbrev pub make_request : Text → R → Priority → ℕ → Bool → QueuedRequest R
  make_request request_id req priority now in_loop = record {
    priority = priority;
    enqueued_at = now;
    request_id = request_id;
    request = req;
    has_future = in_loop;
  }

  abbrev pub append_to : Priority → QueuedRequest R → RequestQueue R → RequestQueue R
  append_to high x q = record q { high_queue = q.high_queue ++ (x ∷ []); event = true }
  append_to medium x q = record q { medium_queue = q.medium_queue ++ (x ∷ []); event = true }
  append_to low x q = record q { low_queue = q.low_queue ++ (x ∷ []); event = true }

  abbrev shed : Refusal → RequestQueue R → RequestQueue R × Answer R
  shed r q = (record q { shed_count = q.shed_count + 1 }, refused r)

  -- `try_enqueue` at the time `now`, inside an event loop or not
  unfoldable pub try_enqueue :
      Text → R → Priority → ℕ → Bool → RequestQueue R → RequestQueue R × Answer R
  try_enqueue request_id req priority now in_loop q =
      let depth = total_depth q in
      let low_count = length q.low_queue in
      if leb q.config.shed_threshold depth && is_low priority
      then shed (shed_full depth q.config.shed_threshold) q
      else if is_low priority && leb q.config.max_low_priority low_count
      then shed (low_priority_cap low_count q.config.max_low_priority) q
      else if leb q.config.max_depth depth
      then shed (max_full depth q.config.max_depth) q
      else let x = make_request request_id req priority now in_loop in
        (append_to priority x q, queued x)

  abbrev non_empty : RequestQueue R → Bool
  non_empty q = leb 1 (total_depth q)

  -- `if not any(…): self._event.clear()`
  abbrev settle : RequestQueue R → RequestQueue R
  settle q = record q { event = if non_empty q then q.event else false }

  abbrev pop_low : RequestQueue R → RequestQueue R × Option (QueuedRequest R)
  pop_low q = elim q.low_queue [
    | [] ↦ (q, none)
    | x ∷ xs ↦ (settle (record q { low_queue = xs }), some x)
  ]

  abbrev pop_medium : RequestQueue R → RequestQueue R × Option (QueuedRequest R)
  pop_medium q = elim q.medium_queue [
    | [] ↦ pop_low q
    | x ∷ xs ↦ (settle (record q { medium_queue = xs }), some x)
  ]

  -- One round of `dequeue`, under the lock.
  unfoldable pub pop_next : RequestQueue R → RequestQueue R × Option (QueuedRequest R)
  pop_next q = elim q.high_queue [
    | [] ↦ pop_medium q
    | x ∷ xs ↦ (settle (record q { high_queue = xs }), some x)
  ]

  -- `dequeue` with the rounds that are left of its ten; `between` is what other tasks do to the queue
  -- while it sleeps.
  unfoldable pub dequeue_rounds :
      (ℕ → RequestQueue R → RequestQueue R)
      → ℕ
      → RequestQueue R
      → RequestQueue R × Option (QueuedRequest R)
  dequeue_rounds between zero q = (q, none)
  dequeue_rounds between (suc n) q =
      let (q', item) = pop_next q in
      elim item [
        | some x ↦ (q', some x)
        | none ↦ dequeue_rounds between n (if q'.event then q' else between n q')
      ]

  abbrev pub dequeue :
      (ℕ → RequestQueue R → RequestQueue R)
      → RequestQueue R
      → RequestQueue R × Option (QueuedRequest R)
  dequeue between = dequeue_rounds between 10

  unfoldable pub record_timeout : RequestQueue R → RequestQueue R
  record_timeout q = record q { timeout_count = q.timeout_count + 1 }

  unfoldable pub stats : RequestQueue R → QueueStats
  stats q = record {
    total_depth = total_depth q;
    high_depth = length q.high_queue;
    medium_depth = length q.medium_queue;
    low_depth = length q.low_queue;
    shed_count = q.shed_count;
    timeout_count = q.timeout_count;
  }

  unfoldable pub reset : RequestQueue R → RequestQueue R
  reset q = record q {
    high_queue = [];
    medium_queue = [];
    low_queue = [];
    shed_count = 0;
    timeout_count = 0;
    event = false;
  }

-- The calls of a queue's clients.
pub data Call (R : Type 0) : Type 0 where
  enqueue : Text → R → Priority → ℕ → Bool → Call R
  take_next : Call R
  time_out : Call R
  clear : Call R

module _ {R : Type 0} where
  pub perform : Call R → RequestQueue R → RequestQueue R
  perform (enqueue id req p now in_loop) q = (try_enqueue id req p now in_loop q).0
  perform take_next q = (pop_next q).0
  perform time_out q = record_timeout q
  perform clear q = reset q

  pub perform_all : List (Call R) → RequestQueue R → RequestQueue R
  perform_all [] q = q
  perform_all (c ∷ cs) q = perform_all cs (perform c q)
