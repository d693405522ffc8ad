-- ===== src/Router/Queue/View.antt =====
-- The queue as one list, in the order in which it serves.
use mathlib.Core.List.{append_assoc}
use intelli_route_team.Common.{
  ℕ, zero, suc, ◌≤◌, ◌≡◌, refl, ap, sym, ◌∙◌, Bool, Option, none, some, List, [], ◌∷◌, ◌++◌, Text,
  arith, leb, if◌then◌else◌,
}
use intelli_route_team.Router.Queue.{
  Priority, high, medium, low, QueuedRequest, RequestQueue, try_enqueue, pop_next, append_to,
  make_request, dequeue_rounds, dequeue, queued, refused,
}
use intelli_route_team.Router.Queue.Valid.{AllOf, IsValid}

abbrev pub rank : Priority → ℕ
rank high = 0
rank medium = 1
rank low = 2

module _ {R : Type 0} where
  unfoldable pub view : RequestQueue R → List (QueuedRequest R)
  view q = q.high_queue ++ (q.medium_queue ++ q.low_queue)

  -- The specification: a request goes behind all that are at least as urgent.
  pub place : QueuedRequest R → List (QueuedRequest R) → List (QueuedRequest R)
  place x [] = x ∷ []
  place x (y ∷ ys) = if leb (rank y.priority) (rank x.priority) then y ∷ place x ys else x ∷ y ∷ ys

  -- The specification of a removal.
  unfoldable pub first : List (QueuedRequest R) → Option (QueuedRequest R) × List (QueuedRequest R)
  first [] = (none, [])
  first (x ∷ xs) = (some x, xs)

  place_behind :
      (p : Priority) (x : QueuedRequest R) (xs ys : List (QueuedRequest R))
      → AllOf p xs
      → rank p ≤ rank x.priority
      → place x (xs ++ ys) ≡ xs ++ place x ys
  unfolding place
  place_behind p x [] ys h le = refl
  place_behind p x (z ∷ xs) ys h le = ground (arith, place_behind p x xs ys h.1 le)

  place_before :
      (p : Priority) (x : QueuedRequest R) (ys : List (QueuedRequest R))
      → AllOf p ys
      → suc (rank x.priority) ≤ rank p
      → place x ys ≡ x ∷ ys
  unfolding place
  place_before p x [] h lt = refl
  place_before p x (y ∷ ys) h lt = ground arith

  place_before_both :
      (p : Priority) (x : QueuedRequest R) (ys zs : List (QueuedRequest R))
      → AllOf p ys
      → suc (rank x.priority) ≤ rank p
      → place x zs ≡ x ∷ zs
      → place x (ys ++ zs) ≡ x ∷ (ys ++ zs)
  unfolding place
  place_before_both p x [] zs h lt e = e
  place_before_both p x (y ∷ ys) zs h lt e = ground arith

  place_last :
      (x : QueuedRequest R) (ys : List (QueuedRequest R))
      → AllOf low ys
      → x.priority ≡ low
      → place x ys ≡ ys ++ (x ∷ [])
  unfolding place
  place_last x [] h e = refl
  place_last x (y ∷ ys) h e = ground (arith, place_last x ys h.1 e)

  -- Appending to the list of its priority places a request in the order of service.
  view-append_to :
      (p : Priority) (x : QueuedRequest R) (q : RequestQueue R)
      → IsValid q
      → x.priority ≡ p
      → view (append_to p x q) ≡ place x (view q)
  unfolding view
  view-append_to high x q v e =
      append_assoc q.high_queue (x ∷ []) (q.medium_queue ++ q.low_queue)
      ∙ ap (λ r. q.high_queue ++ r)
          (sym (
            place_before_both medium x q.medium_queue q.low_queue v.all_medium (ground arith)
              (place_before low x q.low_queue v.all_low (ground arith))))
      ∙ sym (place_behind high x q.high_queue _ v.all_high (ground arith))
  view-append_to medium x q v e =
      ap (λ r. q.high_queue ++ r)
        (append_assoc q.medium_queue (x ∷ []) q.low_queue
          ∙ ap (λ r. q.medium_queue ++ r)
              (sym (place_before low x q.low_queue v.all_low (ground arith)))
          ∙ sym (place_behind medium x q.medium_queue _ v.all_medium (ground arith)))
      ∙ sym (place_behind high x q.high_queue _ v.all_high (ground arith))
  view-append_to low x q v e =
      ap (λ r. q.high_queue ++ (q.medium_queue ++ r)) (sym (place_last x q.low_queue v.all_low e))
      ∙ ap (λ r. q.high_queue ++ r)
          (sym (place_behind medium x q.medium_queue _ v.all_medium (ground arith)))
      ∙ sym (place_behind high x q.high_queue _ v.all_high (ground arith))

  -- From a valid queue, the queue implements the specification: accepting a request places it
  -- behind all that are at least as urgent and before all others, and a refusal leaves the order
  -- of service alone.
  pub view-try_enqueue :
      (id : Text) (req : R) (p : Priority) (now : ℕ) (l : Bool) (q : RequestQueue R)
      → IsValid q
      → let (q', a) = try_enqueue id req p now l q in
        view q' ≡ elim a [ queued x ↦ place x (view q) | refused r ↦ view q ]
  unfolding try_enqueue view
  view-try_enqueue id req high now l q v =
      ground (arith, view-append_to high (make_request id req high now l) q v refl)
  view-try_enqueue id req medium now l q v =
      ground (arith, view-append_to medium (make_request id req medium now l) q v refl)
  view-try_enqueue id req low now l q v =
      ground (arith, view-append_to low (make_request id req low now l) q v refl)

  -- A removal takes the first request in the order of service, and nothing from an empty queue.
  pub view-pop_next :
      (q : RequestQueue R) → let (q', item) = pop_next q in (item, view q') ≡ first (view q)
  unfolding pop_next view first
  view-pop_next q = ground arith

  -- From a queue in which a request waits, `dequeue` returns the first in the order of service in
  -- its first round, whatever other tasks do later.
  pub dequeue_serves :
      (between : ℕ → RequestQueue R → RequestQueue R) (q : RequestQueue R) (x : QueuedRequest R)
      (xs : List (QueuedRequest R))
      → view q ≡ x ∷ xs
      → let (q', item) = dequeue between q in (item ≡ some x) × (view q' ≡ xs)
  unfolding dequeue_rounds first
  dequeue_serves between q x xs h = ground (arith, view-pop_next q)

  -- A queue that stays empty for all ten rounds gives nothing.
  empty_rounds :
      (between : ℕ → RequestQueue R → RequestQueue R)
      → ((n : ℕ) (q : RequestQueue R) → view q ≡ [] → view (between n q) ≡ [])
      → (n : ℕ) (q : RequestQueue R) → view q ≡ []
      → (dequeue_rounds between n q).1 ≡ none
  unfolding dequeue_rounds first
  empty_rounds between keep zero q h = refl
  empty_rounds between keep (suc n) q h =
      let q' = (pop_next q).0 in
      ground (
        arith,
        view-pop_next q,
        keep n q',
        empty_rounds between keep n (if q'.event then q' else between n q'),
      )
