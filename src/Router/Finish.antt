-- ===== src/Router/Finish.antt =====
-- What `_execute_completion` of intelliroute/router/main.py does once a provider has answered: the
-- cost event, the record for feedback, the daily count, the trace and the response. The readings of
-- the clocks and the day are arguments.
pub mod Preview
pub mod Effects
mod Tests
use intelli_route_team.Common.{
  ℕ, ◌+◌, Bool, true, false, not, ◌&&◌, Option, none, some, List, [], ◌∷◌, map, Text, text_eq, ◌==◌,
  take, foldl_by, if◌then◌else◌,
}
use intelli_route_team.Common.Dict.{Dict, insert, is_some}
use intelli_route_team.Common.Float.{Float, of_ℕ}
use intelli_route_team.Common.Strings.{text, is_text}
use intelli_route_team.CostTracker.Accounting.{CostEvent}
use intelli_route_team.Router.Provider.{
  Intent, intent_value, ChatMessage, ProviderInfo, ScoredProvider, CompletionRequest,
}
use intelli_route_team.Router.Client.{ProviderReply}
use intelli_route_team.Router.Dispatch.{RouterState, record_brownout_result}
use intelli_route_team.Router.Quota.{QuotaSettings, daily_quota_limit, record_successful_completion}
use intelli_route_team.Router.UserFeedback.{CompletionMeta, UserFeedbackStore, record_completion}
use intelli_route_team.Router.Finish.Preview.{last_user_message_text, truncate_preview_text}

-- Without the evaluation of the policy engine and the brownout status, which it carries along.
pub record CompletionResponse (F : Type 0) : Type 0 where
  pub request_id : Text
  pub provider : Text
  pub model : Text
  pub content : Text
  pub prompt_tokens : ℕ
  pub completion_tokens : ℕ
  pub total_tokens : ℕ
  pub latency_ms : F
  pub estimated_cost_usd : F
  pub fallback_used : Bool
  pub degraded : Bool

-- An entry of `_recent_traces`.
pub record RequestTrace (F : Type 0) : Type 0 where
  pub request_id : Text
  pub request_text : Text
  pub intent : Text
  pub completion : CompletionResponse F
  pub ranked : List Text
  pub scores : Dict Text F
  pub routing_mode : Text

-- The globals that a served request changes.
pub record Ledger (F : Type 0) : Type 0 where
  pub router : RouterState F
  pub user_feedback : UserFeedbackStore F
  pub recent_traces : List (RequestTrace F)

pub record PreviewSettings : Type 0 where
  pub feedback_prompt_preview_chars : ℕ
  pub feedback_response_preview_chars : ℕ

-- What the attempts leave: the provider, its answer and the loop's flags, and the readings.
pub record Success (F : Type 0) : Type 0 where
  pub info : ProviderInfo F
  pub reply : ProviderReply
  pub latency_ms : F
  pub fallback_used : Bool
  pub degraded : Bool
  pub ranked : List (ScoredProvider F)
  pub routing_mode : Text
  pub elapsed_ms : F
  pub unix_ts : F
  pub day : Text

-- `data.get("model") or info.model`
abbrev or_model : Text → Text → Text
or_model [] d = d
or_model (c ∷ t) d = c ∷ t

-- The content of the last message whose role is `"user"`.
abbrev request_text_of : List ChatMessage → Option Text
request_text_of [] = none
request_text_of (m ∷ ms) = elim (request_text_of ms) [
  | some t ↦ some t
  | none ↦ if m.role == text "user" then some m.content else none
]

abbrev or_blank : Option Text → Text
or_blank none = []
or_blank (some t) = t

module _ {F : Type 0} ⦃fl : Float F⦄ where
  open fl use {mul, div, round_to}

  unfoldable pub estimated_cost : Success F → F
  estimated_cost r =
      mul (div (of_ℕ (r.reply.prompt_tokens + r.reply.completion_tokens)) (of_ℕ 1000))
        r.info.cost_per_1k_tokens

  -- The event for the cost tracker.
  unfoldable pub cost_event : Text → CompletionRequest F → Success F → CostEvent F
  cost_event request_id req r = record {
    request_id = request_id;
    tenant_id = req.tenant_id;
    team_id = req.team_id;
    workflow_id = req.workflow_id;
    provider = r.info.name;
    model = or_model r.reply.model r.info.model;
    prompt_tokens = r.reply.prompt_tokens;
    completion_tokens = r.reply.completion_tokens;
    estimated_cost_usd = estimated_cost r;
    unix_ts = r.unix_ts;
  }

  unfoldable pub completion_meta :
      PreviewSettings → Text → CompletionRequest F → Intent → Success F → CompletionMeta F
  completion_meta p request_id req intent r = record {
    request_id = request_id;
    tenant_id = req.tenant_id;
    provider = r.info.name;
    model = or_model r.reply.model r.info.model;
    intent = intent_value intent;
    prompt_tokens = r.reply.prompt_tokens;
    completion_tokens = r.reply.completion_tokens;
    total_tokens = r.reply.prompt_tokens + r.reply.completion_tokens;
    latency_ms = round_to 2 r.latency_ms;
    unix_ts = r.unix_ts;
    prompt_preview =
        truncate_preview_text (last_user_message_text req.messages) p.feedback_prompt_preview_chars;
    response_preview = truncate_preview_text r.reply.content p.feedback_response_preview_chars;
  }

  unfoldable pub response : Text → Success F → CompletionResponse F
  response request_id r = record {
    request_id = request_id;
    provider = r.info.name;
    model = or_model r.reply.model r.info.model;
    content = r.reply.content;
    prompt_tokens = r.reply.prompt_tokens;
    completion_tokens = r.reply.completion_tokens;
    total_tokens = r.reply.prompt_tokens + r.reply.completion_tokens;
    latency_ms = round_to 2 r.latency_ms;
    estimated_cost_usd = round_to 6 (estimated_cost r);
    fallback_used = r.fallback_used;
    degraded = r.degraded;
  }

  abbrev put_score : Dict Text F → ScoredProvider F → Dict Text F
  put_score d s = insert s.provider.name (round_to 4 s.score) d

  abbrev trace_of : Text → CompletionRequest F → Intent → Success F → RequestTrace F
  trace_of request_id req intent r = record {
    request_id = request_id;
    request_text = or_blank (request_text_of req.messages);
    intent = intent_value intent;
    completion = response request_id r;
    ranked = map (λ (s : ScoredProvider F). s.provider.name) r.ranked;
    scores = foldl_by put_score [] r.ranked;
    routing_mode = r.routing_mode;
  }

  -- `if daily_quota_limit(info.name, settings) is not None: …`
  abbrev count_use : QuotaSettings F → Success F → RouterState F → RouterState F
  count_use settings r s =
      if is_some (daily_quota_limit r.info.name settings)
      then record s { quotas = record_successful_completion r.day r.info.name s.quotas }
      else s

  -- From the provider's answer to the response; the deque of traces holds at most 50.
  unfoldable pub finish :
      QuotaSettings F
      → PreviewSettings
      → Text
      → CompletionRequest F
      → Intent
      → Success F
      → Ledger F
      → Ledger F × CostEvent F × CompletionResponse F
  finish settings p request_id req intent r s = (
    record {
      router =
          count_use settings r
            (record_brownout_result req.tenant_id r.elapsed_ms true false s.router);
      user_feedback = record_completion (completion_meta p request_id req intent r) s.user_feedback;
      recent_traces = take 50 (trace_of request_id req intent r ∷ s.recent_traces);
    },
    cost_event request_id req r,
    response request_id r,
  )
