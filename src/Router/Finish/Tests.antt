-- ===== src/Router/Finish/Tests.antt =====
-- The theorems about served requests at a concrete one.
use intelli_route_team.Common.{
  ℕ, ◌*◌, ◌/◌, arith, ◌≡◌, ◌++◌, Option, refl, true, false, none, List, [], ◌∷◌,
}
use intelli_route_team.Common.Float.{nat_float}
use intelli_route_team.Common.Unit.{milli}
use intelli_route_team.CostTracker.Accounting.{
  CostAccountant, new_accountant, rollup_of, record_event,
}
use intelli_route_team.Common.Strings.{text}
use intelli_route_team.Router.Provider.{reasoning, ProviderInfo, CompletionRequest}
use intelli_route_team.Router.Quota.{QuotaSettings, usage, daily_quota_limit}
use intelli_route_team.Router.Dispatch.{RouterState}
use intelli_route_team.Router.Dispatch.Example.{router}
use intelli_route_team.Router.UserFeedback.{
  CompletionMeta, FeedbackRow, new_store, accepted, submit_feedback,
}
use intelli_route_team.Router.Finish.{Success, Ledger, PreviewSettings, finish}
use intelli_route_team.Router.Finish.Preview.{truncate_preview_text, words}
use intelli_route_team.Router.Finish.Effects.{finish-charged, finish-rated}

abbrev groq : ProviderInfo ℕ
groq = record {
  name = text "groq";
  url = text "https://example.org";
  model = text "llama";
  provider_type = text "groq";
  capability = [];
  cost_per_1k_tokens = 2;
  typical_latency_ms = 400;
  max_concurrency = 4;
  capability_tier = 2;
  sla_p95_latency_ms = [];
  max_retries = 1;
}

abbrev request : CompletionRequest ℕ
request = record {
  tenant_id = text "acme";
  team_id = none;
  workflow_id = none;
  messages = record { role = text "User"; content = text " Why  so? " } ∷ [];
  max_tokens = 16;
  temperature = 0;
  intent_hint = none;
  latency_budget_ms = none;
  confidence_hint = none;
}

abbrev counted : RouterState ℕ
counted = record router { quotas = record { counts = ((text "2026-04-01", text "groq"), 6) ∷ [] } }

abbrev ledger : Ledger ℕ
ledger = record { router = counted; user_feedback = new_store; recent_traces = [] }

abbrev settings : QuotaSettings ℕ
settings = record {
  enable_provider_daily_quotas = true;
  gemini = 15;
  groq = 700;
  mock_fast = 0;
  mock_cheap = 0;
  mock_smart = 0;
  mock_fault = 0;
  provider_quota_warn_ratio = 1;
}

abbrev previews : PreviewSettings
previews = record { feedback_prompt_preview_chars = 200; feedback_response_preview_chars = 300 }

abbrev success : Success ℕ
success = record {
  info = groq;
  reply = record {
    id = text "r1";
    provider = text "groq";
    model = [];
    content = text "Because.";
    prompt_tokens = 3;
    completion_tokens = 2;
  };
  latency_ms = 420;
  fallback_used = false;
  degraded = false;
  ranked = [];
  routing_mode = text "intelliroute";
  elapsed_ms = 425;
  unix_ts = 1000;
  day = text "2026-04-01";
}

abbrev pick : List (CompletionMeta ℕ) → Option (CompletionMeta ℕ)
pick ms = none

-- The tenant has an account of one request.
abbrev accountant : CostAccountant ℕ
accountant = record (new_accountant ⦃fl = milli⦄ [] 5000) {
  rollups =
      (
        text "acme",
        record { total_requests = 1; total_tokens = 7; total_cost_usd = 20; by_provider = [] },
      )
      ∷ [];
}

-- 1,500 tokens at two thousandths per thousand tokens
abbrev long_answer : Success ℕ
long_answer = record success {
  reply = record success.reply { prompt_tokens = 500; completion_tokens = 1000 };
}

milli_thousandths : (n : ℕ) → n * 1000 / 1 * 1000 / 1000000 ≡ n * 1000 / 1000
milli_thousandths n = omega arith

finish-charged_example :
    let (s', event, resp) =
      finish ⦃fl = milli⦄ settings previews (text "q1") request reasoning long_answer ledger in
    let after = rollup_of ⦃fl = milli⦄ (text "acme") (record_event ⦃fl = milli⦄ event accountant) in
    (resp.prompt_tokens ≡ 500)
    × (resp.completion_tokens ≡ 1000)
    × (resp.total_tokens ≡ 1500)
    × (resp.estimated_cost_usd ≡ 3)
    × (after.total_requests ≡ 2)
    × (after.total_tokens ≡ 1507)
    × (after.total_cost_usd ≡ 23)
    × (usage (text "2026-04-01") (text "groq") s'.router.quotas ≡ 7)
unfolding usage daily_quota_limit
finish-charged_example =
    finish-charged ⦃fl = milli⦄ settings previews (text "q1") request reasoning long_answer ledger
      milli_thousandths accountant

finish-rated_example :
    let (s', event, resp) = finish settings previews (text "q1") request reasoning success ledger in
    let answer =
      (submit_feedback pick
        (text "acme")
        (text "q1")
        (text "positive")
        []
        1100
        s'.user_feedback).1 in
    (row : FeedbackRow ℕ) × (answer ≡ accepted row)
    × (row.tenant_id ≡ text "acme")
    × (row.provider ≡ resp.provider)
    × (row.model ≡ resp.model)
    × (row.total_tokens ≡ resp.total_tokens)
finish-rated_example =
    finish-rated settings previews (text "q1") request reasoning success ledger pick (text "acme")
      (text "positive") [] 1100 refl

-- White space is squeezed before the cut.
cut : truncate_preview_text (text " Why  so, then? ") 8 ≡ text "Why so," ++ (8230 ∷ [])
unfolding truncate_preview_text words
cut = refl
