-- ===== src/Router/Queue/Tests.antt =====
-- The theorems about the request queue at concrete inputs, and runs of its code.
use intelli_route_team.Common.{ℕ, ◌≡◌, refl, true, false, List, [], ◌∷◌, arith}
use intelli_route_team.Common.Strings.{text}
use intelli_route_team.Router.Queue.{
  high, medium, low, QueueConfig, QueuedRequest, RequestQueue, new_queue, make_request, try_enqueue,
  queued, refused, Call, enqueue, take_next, time_out, perform_all,
}
use intelli_route_team.Router.Queue.Valid.{IsValid, perform_all-IsValid}
use intelli_route_team.Router.Queue.View.{view, place, view-try_enqueue}

abbrev config : QueueConfig
config = record { max_depth = 3; max_low_priority = 1; shed_threshold = 2; timeout_ms = 5000 }

abbrev slow : QueuedRequest ℕ
slow = make_request (text "a") 17 low 100 false

abbrev usual : QueuedRequest ℕ
usual = make_request (text "b") 18 medium 101 true

abbrev waiting : RequestQueue ℕ
waiting = record (new_queue config) {
  medium_queue = usual ∷ [];
  low_queue = slow ∷ [];
  event = true;
}

waiting-IsValid : IsValid waiting
waiting-IsValid = record {
  depth = omega arith;
  low_depth = omega arith;
  signalled = refl;
  all_high = tt;
  all_medium = (refl, tt);
  all_low = (refl, tt);
}

abbrev calls : List (Call ℕ)
calls =
    enqueue (text "c") 19 low 102 true
    ∷ enqueue (text "d") 20 high 103 true
    ∷ take_next
    ∷ time_out
    ∷ take_next
    ∷ []

perform_all-IsValid_example : IsValid (perform_all calls waiting)
perform_all-IsValid_example = perform_all-IsValid calls waiting waiting-IsValid

view-try_enqueue_example :
    let (q', a) = try_enqueue (text "d") 20 high 103 true waiting in
    view q' ≡ elim a [ queued x ↦ place x (view waiting) | refused r ↦ view waiting ]
view-try_enqueue_example = view-try_enqueue (text "d") 20 high 103 true waiting waiting-IsValid

-- The request of high priority is placed first.
view_high :
    view (try_enqueue (text "d") 20 high 103 true waiting).0
    ≡ make_request (text "d") 20 high 103 true ∷ usual ∷ slow ∷ []
unfolding view try_enqueue
view_high = refl
