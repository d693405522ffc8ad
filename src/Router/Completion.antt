-- ===== src/Router/Completion.antt =====
-- The attempt loop of `_execute_completion` in intelliroute/router/main.py: which provider is tried
-- next, how often, and what the client is told. The other services and the providers answer through
-- an `Environment`; each pass of the loop has a number, its `attempts`, and asks for the answers of
-- that number. What a pass reports to the health monitor, the weight tuner and the feedback
-- collector is left out.
pub mod Measure
pub mod Bounded
pub mod Complete
pub mod Flag
pub mod Gate
use intelli_route_team.Common.{
  ℕ, zero, suc, ◌+◌, Bool, true, false, not, ◌&&◌, ◌||◌, Option, none, some, List, [], ◌∷◌, ◌++◌,
  Text, text_eq, leb, ltb, max, if◌then◌else◌,
}
use intelli_route_team.Common.Dict.{Dict, lookup, insert}
use intelli_route_team.Common.Float.{Float, nought, of_ℕ, flt}
use intelli_route_team.Router.Provider.{Intent, ProviderInfo, ScoredProvider}
use intelli_route_team.Router.Fallback.{reorder_pending}

pub data ErrorKind : Type 0 where
  rate_limited timeout transport_error server_error client_error http_error forced_failure unknown :
      ErrorKind

-- What `_call_provider` returns, as far as the loop reads it.
pub record CallResult (F : Type 0) : Type 0 where
  pub ok : Bool
  pub latency_ms : F
  pub error_kind : Option ErrorKind
  pub retryable : Bool
  pub prompt_tokens : ℕ
  pub completion_tokens : ℕ

-- The daily limits, the usage read in a pass, the rate limiter's answers and the providers' answers.
pub record Environment (F : Type 0) : Type 0 where
  pub quota_limit : Text → Option ℕ
  pub used : ℕ → Text → ℕ
  pub rate_allowed : ℕ → Text → Bool
  pub call : ℕ → ProviderInfo F → CallResult F

-- `_fetch_budget_context`, as far as the loop reads it.
pub record BudgetContext (F : Type 0) : Type 0 where
  pub tenant_budget : Option F
  pub tenant_spent : F
  pub team_budget : Option F
  pub team_spent : F
  pub workflow_budget : Option F
  pub workflow_spent : F

-- What became of one pass: the reasons to go on, or a call with its number for the provider.
pub data RouteEvent : Type 0 where
  quota_skip : Text → RouteEvent
  retries_exhausted : Text → RouteEvent
  limited : Text → RouteEvent
  called : Text → ℕ → Bool → RouteEvent

-- The loop's variables; `hops` is the source's `i`, and `log` has the newest event first.
pub record RouteState (F : Type 0) : Type 0 where
  pub pending : List (ScoredProvider F)
  pub attempts : ℕ
  pub hops : ℕ
  pub provider_attempts : Dict Text ℕ
  pub fallback_used : Bool
  pub log : List RouteEvent

-- The flags of `CompletionResponse` and its provider.
pub record Served (F : Type 0) : Type 0 where
  pub provider : ScoredProvider F
  pub result : CallResult F
  pub fallback_used : Bool
  pub degraded : Bool

pub data StepResult (F : Type 0) : Type 0 where
  go_on : RouteState F → StepResult F
  served : Served F → RouteState F → StepResult F

-- `out_of_fuel` is no outcome of the source: Completion/Measure shows that it does not arise.
pub data RouteResult (F : Type 0) : Type 0 where
  out_of_fuel : RouteResult F
  all_failed : RouteState F → RouteResult F
  completed : Served F → RouteState F → RouteResult F

abbrev pub tries_of : Text → Dict Text ℕ → ℕ
tries_of name d = elim (lookup name d) [ none ↦ 0 | some n ↦ n ]

-- `max(1, int(info.max_retries))`
abbrev pub retry_budget : {F : Type 0} → ScoredProvider F → ℕ
retry_budget s = max 1 s.provider.max_retries

-- `same_provider_retry_kinds`
abbrev pub retry_kind : Option ErrorKind → Bool
retry_kind (some rate_limited) = true
retry_kind (some timeout) = true
retry_kind (some transport_error) = true
retry_kind _ = false

abbrev pub limit_reached : Option ℕ → ℕ → Bool
limit_reached none used = false
limit_reached (some lim) used = leb lim used

module _ {F : Type 0} ⦃fl : Float F⦄ where
  open fl use {add, mul, div, fle}

  abbrev pub over : Option F → F → F → Bool
  over none spent projected = false
  over (some budget) spent projected = flt budget (add spent projected)

  abbrev pub cost_of : ScoredProvider F → F
  cost_of s = s.provider.cost_per_1k_tokens

  -- Would the head of the list take the tenant, team or workflow over its budget?
  unfoldable pub exceeds : BudgetContext F → ℕ → ScoredProvider F → Bool
  exceeds b max_tokens head =
      let projected = mul (div (of_ℕ max_tokens) (of_ℕ 1000)) (cost_of head) in
      over b.tenant_budget b.tenant_spent projected
      || over b.team_budget b.team_spent projected
      || over b.workflow_budget b.workflow_spent projected

  -- `min(pending, key=…)`, the first of the cheapest, and the others in their order.
  unfoldable pub select_cheapest :
      ScoredProvider F → List (ScoredProvider F) → ScoredProvider F × List (ScoredProvider F)
  select_cheapest s [] = (s, [])
  select_cheapest s (t ∷ ts) =
      let (best, rest) = select_cheapest t ts in
      if flt (cost_of best) (cost_of s) then (best, s ∷ rest) else (s, t ∷ ts)

  -- The gate before a pass: the head, the rest, and whether the head was demoted.
  unfoldable pub budget_gate :
      BudgetContext F
      → ℕ
      → ScoredProvider F
      → List (ScoredProvider F)
      → ScoredProvider F × List (ScoredProvider F) × Bool
  budget_gate b max_tokens head rest =
      let (best, others) = select_cheapest head rest in
      if exceeds b max_tokens head && flt (cost_of best) (cost_of head)
      then (best, others, true)
      else (head, rest, false)

  module _ (env : Environment F) (budget : BudgetContext F) (max_tokens : ℕ) (intent : Intent) where
    -- Go on without the provider, after the event.
    abbrev pub drop_head :
        RouteEvent → ℕ → ScoredProvider F → List (ScoredProvider F) → RouteState F → StepResult F
    drop_head event hop s rest st = go_on (record st {
      pending = reorder_pending rest s.provider.capability_tier intent;
      attempts = st.attempts + 1;
      hops = st.hops + hop;
      fallback_used = true;
      log = event ∷ st.log;
    })

    -- After a call, with the number `local` of the provider's attempt.
    unfoldable pub after_call :
        CallResult F → ℕ → ScoredProvider F → List (ScoredProvider F) → RouteState F → StepResult F
    after_call r local s rest st =
        let event = called s.provider.name local r.ok in
        if r.ok
        then served
            (record {
              provider = s;
              result = r;
              fallback_used = st.fallback_used || ltb 0 st.hops;
              degraded = ltb 0 st.hops;
            })
            (record st { pending = rest; log = event ∷ st.log })
        else if r.retryable && retry_kind r.error_kind && ltb local (retry_budget s)
        then go_on (record st {
          pending = s ∷ rest;
          attempts = st.attempts + 1;
          hops = st.hops + 1;
          fallback_used = true;
          log = event ∷ st.log;
        })
        else drop_head event 1 s rest st

    -- The body of the loop below the gate: `s` is popped, `rest` is pending.
    unfoldable pub attempt :
        ScoredProvider F → List (ScoredProvider F) → RouteState F → StepResult F
    attempt s rest st =
        let name = s.provider.name in
        let local = tries_of name st.provider_attempts + 1 in
        let st' = record st { provider_attempts = insert name local st.provider_attempts } in
        if limit_reached (env.quota_limit name) (env.used st.attempts name)
        then drop_head (quota_skip name) 0 s rest st'
        else if ltb (retry_budget s) local
        then drop_head (retries_exhausted name) 0 s rest st'
        else if not (env.rate_allowed st.attempts name)
        then drop_head (limited name) 1 s rest st'
        else after_call (env.call st.attempts s.provider) local s rest st'

    -- One pass of `while pending`.
    unfoldable pub pass : ScoredProvider F → List (ScoredProvider F) → RouteState F → StepResult F
    pass head rest st =
        let (s, others, demoted) = budget_gate budget max_tokens head rest in
        attempt s others (record st { fallback_used = st.fallback_used || demoted })

    -- The loop, with fuel.
    unfoldable pub route : ℕ → RouteState F → RouteResult F
    route zero st = out_of_fuel
    route (suc fuel) st = elim st.pending [
      | [] ↦ all_failed st
      | head ∷ rest ↦ elim (pass head rest st) [
        | go_on st' ↦ route fuel st'
        | served v st' ↦ completed v st'
      ]
    ]

  -- The loop's variables before it.
  abbrev pub start : List (ScoredProvider F) → RouteState F
  start ranked = record {
    pending = ranked;
    attempts = 0;
    hops = 0;
    provider_attempts = [];
    fallback_used = false;
    log = [];
  }
