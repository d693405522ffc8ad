-- ===== src/Router/Answering/Tests.antt =====
-- The theorems about the answers of the router at concrete requests.
use intelli_route_team.Common.{
  ℕ, suc, ◌+◌, ◌≤◌, All, count_by, none, ◌≡◌, refl, true, false, map, some, [], ◌∷◌, Text,
}
use intelli_route_team.Common.Unit.{milli}
use intelli_route_team.Common.Strings.{text}
use intelli_route_team.Router.Provider.{interactive, CompletionRequest}
use intelli_route_team.Router.Queue.{low, make_request, QueuedRequest}
use intelli_route_team.Router.Queue.View.{view}
use intelli_route_team.Router.Worker.{worker_passes}
use intelli_route_team.Router.Classify.{classify}
use intelli_route_team.Router.Dispatch.{RouterState, prepare_routing, begin_completion}
use intelli_route_team.Router.Dispatch.Example.{config, answers, request, router}
use intelli_route_team.Router.Answering.{
  late, expired_in_queue, broken, status, set_by_worker, end_wait, decide,
}
use intelli_route_team.Router.Answering.Timeouts.{expired_counts}
use intelli_route_team.Router.Answering.Decision.{
  shown_names, attempted, IsShown, unclamped, decide_binds,
}
use intelli_route_team.Router.Completion.{Environment, BudgetContext, route, start}
use intelli_route_team.Router.Completion.Measure.{measure, Returns}
use intelli_route_team.Router.Completion.Complete.{is_about}

abbrev stale : QueuedRequest (CompletionRequest ℕ)
stale = make_request (text "q1") request low 100 true

abbrev busy : RouterState ℕ
busy = record router { request_queue = record router.request_queue { low_queue = stale ∷ [] } }

expired_counts_example :
    let (gone, answer) = end_wait ⦃fl = milli⦄ {A = Text} false (text "acme") late busy in
    let (q, passes) = worker_passes (5200 ∷ []) busy.request_queue in
    let (told, answer') =
      end_wait ⦃fl = milli⦄ {A = Text} false
        (text "acme")
        expired_in_queue
        (record busy { request_queue = q }) in
    (answer ≡ status 504)
    × ((worker_passes (5200 ∷ []) gone.request_queue).0.timeout_count ≡ 0 + 2)
    × (map (set_by_worker {A = Text} broken) passes ≡ some expired_in_queue ∷ [])
    × (answer' ≡ status 502)
    × (told.request_queue.timeout_count ≡ 0 + 1)
unfolding view
expired_counts_example =
    expired_counts ⦃fl = milli⦄ Text false broken (text "acme") 5200 busy stale [] refl refl

abbrev hinted : CompletionRequest ℕ
hinted = record request { intent_hint = some interactive }

-- A provider answers if it is asked.
abbrev willing : Environment ℕ
willing = record {
  quota_limit = λ name. none;
  used = λ pass name. 0;
  rate_allowed = λ pass name. true;
  call = λ pass p. record {
    ok = true;
    latency_ms = 300;
    error_kind = none;
    retryable = false;
    prompt_tokens = 5;
    completion_tokens = 9;
  };
}

abbrev unlimited : BudgetContext ℕ
unlimited = record {
  tenant_budget = none;
  tenant_spent = 0;
  team_budget = none;
  team_spent = 0;
  workflow_budget = none;
  workflow_spent = 0;
}

decide_binds_example :
    let names = shown_names ⦃fl = milli⦄ (decide ⦃fl = milli⦄ config answers hinted router).1 in
    let left =
      attempted ⦃fl = milli⦄ (begin_completion ⦃fl = milli⦄ config answers hinted router).1 in
    Returns
      (λ st. All (λ k. 1 ≤ count_by (is_about k) st.log) names)
      (IsShown ⦃fl = milli⦄ willing names)
      (route ⦃fl = milli⦄ willing unlimited 16 interactive
        (suc (measure (start ⦃fl = milli⦄ left)))
        (start ⦃fl = milli⦄ left))
unfolding classify
decide_binds_example = decide_binds ⦃fl = milli⦄ config answers hinted router willing unlimited (
    let (s', bs, candidates) = prepare_routing ⦃fl = milli⦄ config answers hinted router in
    unclamped ⦃fl = milli⦄ bs hinted s'.brownout_manager refl)
