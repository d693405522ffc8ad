-- ===== src/MockProvider/Tests.antt =====
-- The theorems about the mock provider at concrete inputs. Times are thousandths of a second.
use intelli_route_team.Common.{
  ℕ, ◌≡◌, refl, true, false, none, some, List, [], ◌∷◌, All, arith, if◌then◌else◌,
}
use intelli_route_team.Common.Unit.{milli, milli-IsFloat, milli-IsWhole}
use intelli_route_team.Common.Strings.{text}
use intelli_route_team.Router.Provider.{CompletionRequest, ProviderInfo}
use intelli_route_team.Router.Modes.{Modes, is_provider_force_failed}
use intelli_route_team.Router.Client.{Network, ClientSettings, timed_out}
use intelli_route_team.Router.Client.Call.{call_or_fail}
use intelli_route_team.MockProvider.{FaultState, Identity, chat, started}
use intelli_route_team.MockProvider.Faults.{
  expected_error, is_none, is_retryable, is_rate_limited, patience, fault_reported,
}
use intelli_route_team.MockProvider.Backoff.{
  Round, Grows, IsPaced, IsShort, run, pauses, run-IsPaced,
}

abbrev me : Identity
me = record {
  name = text "mock-fast";
  model = text "fast-1";
  new_id = text "id-1";
  synthesized = λ prompt tokens. text "reply";
}

abbrev healthy : FaultState
healthy = record {
  force_fail = false;
  force_timeout = false;
  force_rate_limit = false;
  force_malformed = false;
}

abbrev limited : FaultState
limited = record healthy { force_rate_limit = true; force_malformed = true }

abbrev net : Network ℕ
net = record {
  post_mock = λ url. chat ⦃fl = milli⦄ me limited false 35;
  post_groq = λ key payload limit. timed_out;
  post_gemini = λ key model payload limit. timed_out;
}

abbrev settings : ClientSettings ℕ
settings = record { groq_api_key = []; gemini_api_key = []; provider_timeout_s = 30000 }

abbrev modes : Modes
modes = record { routing_mode = text "intelliroute"; rr_cursor = 0; forced_failures = [] }

abbrev fast : ProviderInfo ℕ
fast = record {
  name = text "mock-fast";
  url = text "http://127.0.0.1:9001";
  model = text "fast-1";
  provider_type = text "mock";
  capability = [];
  cost_per_1k_tokens = 2;
  typical_latency_ms = 80000;
  max_concurrency = 8;
  capability_tier = 1;
  sla_p95_latency_ms = [];
  max_retries = 2;
}

abbrev request : CompletionRequest ℕ
request = record {
  tenant_id = text "acme";
  team_id = none;
  workflow_id = none;
  messages = record { role = text "user"; content = text "Hi" } ∷ [];
  max_tokens = 16;
  temperature = 0;
  intent_hint = none;
  latency_budget_ms = none;
  confidence_hint = none;
}

fault_reported_example :
    let c = call_or_fail ⦃fl = milli⦄ net settings modes 120 fast request in
    let waits = patience ⦃fl = milli⦄ net settings me limited false 35 modes 120 fast request in
    let e = expected_error ⦃fl = milli⦄ limited false 35 waits in
    (c.error_kind ≡ e)
    × (c.ok ≡ is_none e)
    × (c.retryable ≡ is_retryable e)
    × (c.retry_after_ms ≡ (if is_rate_limited e then 5000 else 0))
unfolding is_provider_force_failed
fault_reported_example =
    fault_reported ⦃fl = milli⦄ net settings me limited false 35 modes 120 fast request
      milli-IsWhole refl refl refl

milli-Grows : Grows ℕ ⦃fl = milli⦄
milli-Grows = record { grows = λ a h. ground arith; one_le_ten = refl }

-- Two refusals, an answer, a round too early, and a lost heartbeat.
abbrev rounds : List (Round ℕ)
rounds =
    record { now = 0; reply = some 503; later = 5 }
    ∷ record { now = 1005; reply = none; later = 1010 }
    ∷ record { now = 2260; reply = some 200; later = 2270 }
    ∷ record { now = 2270; reply = none; later = 2270 }
    ∷ record { now = 10300; reply = some 404; later = 10310 }
    ∷ []

run-IsPaced_example :
    let s = started ⦃fl = milli⦄ 8000 in
    IsPaced ⦃fl = milli⦄ (run ⦃fl = milli⦄ 8000 rounds s)
    × All (IsShort ⦃fl = milli⦄) (pauses ⦃fl = milli⦄ 8000 rounds s)
run-IsPaced_example = run-IsPaced ⦃fl = milli⦄ milli-IsFloat milli-Grows 8000 rounds
