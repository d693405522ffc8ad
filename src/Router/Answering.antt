-- ===== src/Router/Answering.antt =====
-- The rest of `complete` and `decide` in intelliroute/router/main.py: how the wait for a queued
-- request ends, and the decision that is shown without being executed. The evaluation of the policy
-- engine that a decision carries along is left out.
pub mod Decision
pub mod Timeouts
mod Tests
use intelli_route_team.Common.{
  ℕ, Bool, true, false, Option, none, some, List, [], ◌∷◌, map, Text, text_eq, foldl_by,
  if◌then◌else◌,
}
use intelli_route_team.Common.Dict.{Dict, insert}
use intelli_route_team.Common.Float.{Float, of_ℕ}
use intelli_route_team.Router.Provider.{Intent, ScoredProvider, CompletionRequest}
use intelli_route_team.Router.Queue.{record_timeout}
use intelli_route_team.Router.Worker.{Pass, idle, expired, executed}
use intelli_route_team.Router.Brownout.{BrownoutSnapshot}
use intelli_route_team.Router.Classify.{classify}
use intelli_route_team.Router.Quota.{apply_daily_quota}
use intelli_route_team.Router.Modes.{get_routing_mode, rank_candidates}
use intelli_route_team.Router.Dispatch.{
  RouterState, RouterConfig, Answers, record_brownout_result, prepare_routing,
}

-- How `await asyncio.wait_for(future, timeout)` ends. `late` is the asyncio.TimeoutError of the wait
-- itself, `expired_in_queue` the TimeoutError that a worker set; `refused` is an HTTPException,
-- `broken` any other exception.
pub data WaitEnd (A : Type 0) : Type 0 where
  response : A → WaitEnd A
  late : WaitEnd A
  expired_in_queue : WaitEnd A
  refused : ℕ → WaitEnd A
  broken : WaitEnd A

-- What a worker's pass sets in the future of its request: an expired one gets a TimeoutError; how an
-- execution ends is an argument.
abbrev pub set_by_worker : {A R : Type 0} → WaitEnd A → Pass R → Option (WaitEnd A)
set_by_worker ran idle = none
set_by_worker ran (expired x) = some expired_in_queue
set_by_worker ran (executed x) = some ran

-- What the client gets: a response, or a status.
pub data CompleteAnswer (A : Type 0) : Type 0 where
  complete_with : A → CompleteAnswer A
  status : ℕ → CompleteAnswer A

-- `RouteDecision`
pub record RouteDecision (F : Type 0) : Type 0 where
  pub intent : Intent
  pub ranked : List Text
  pub scores : Dict Text F
  pub routing_mode : Text
  pub brownout_status : BrownoutSnapshot F

abbrev pub name_of : {F : Type 0} → ScoredProvider F → Text
name_of s = s.provider.name

module _ {F : Type 0} ⦃fl : Float F⦄ where
  open fl use {round_to}

  -- The handler of asyncio.TimeoutError.
  abbrev timed_out : {A : Type 0} → Text → RouterState F → RouterState F × CompleteAnswer A
  timed_out tenant_id s =
      let timeout_ms = of_ℕ s.request_queue.config.timeout_ms in
      (
        record_brownout_result tenant_id timeout_ms false true
            (record s { request_queue = record_timeout s.request_queue }),
        status 504,
      )

  -- The `try` at the end of `complete`. `same_class` says whether TimeoutError is
  -- asyncio.TimeoutError, as it is from Python 3.11 on; in 3.10, `except Exception` catches it.
  unfoldable pub end_wait :
      {A : Type 0} → Bool → Text → WaitEnd A → RouterState F → RouterState F × CompleteAnswer A
  end_wait same_class tenant_id (response a) s = (s, complete_with a)
  end_wait same_class tenant_id late s = timed_out tenant_id s
  end_wait same_class tenant_id expired_in_queue s =
      if same_class then timed_out tenant_id s else (s, status 502)
  end_wait same_class tenant_id (refused code) s = (s, status code)
  end_wait same_class tenant_id broken s = (s, status 502)

  abbrev put_score : Dict Text F → ScoredProvider F → Dict Text F
  put_score d s = insert s.provider.name (round_to 4 s.score) d

  -- `none` is the 429 of exhausted quotas.
  abbrev quota_verdict :
      List (ScoredProvider F) → List (ScoredProvider F) → Option (List (ScoredProvider F))
  quota_verdict [] left = some []
  quota_verdict (r ∷ ranked) [] = none
  quota_verdict (r ∷ ranked) (l ∷ left) = some (l ∷ left)

  abbrev shown :
      Intent
      → Text
      → BrownoutSnapshot F
      → Option (List (ScoredProvider F))
      → Option (RouteDecision F)
  shown intent mode bs none = none
  shown intent mode bs (some left) = some (record {
    intent = intent;
    ranked = map name_of left;
    scores = foldl_by put_score [] left;
    routing_mode = mode;
    brownout_status = bs;
  })

  -- `decide`
  unfoldable pub decide :
      RouterConfig F
      → Answers F
      → CompletionRequest F
      → RouterState F
      → RouterState F × Option (RouteDecision F)
  decide config answers req s =
      let (s', bs, candidates) = prepare_routing config answers req s in
      let mode = get_routing_mode s'.modes in
      let (ranked, modes) =
        rank_candidates mode config.policy candidates answers.health (classify req) req s'.modes in
      let left = apply_daily_quota config.quota_settings answers.day s'.quotas ranked in
      (record s' { modes = modes }, shown (classify req) mode bs (quota_verdict ranked left))
