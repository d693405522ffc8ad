-- ===== src/Router/Client/Tests.antt =====
-- The theorems about the clients of the providers at concrete inputs.
use intelli_route_team.Common.{
  ℕ, ◌-◌, ◌≡◌, true, none, some, [], ◌∷◌, length, all_by, any_by, count_by, max, refl,
}
use intelli_route_team.Common.Dict.{is_some}
use intelli_route_team.Common.Float.{nat_float}
use intelli_route_team.Common.Strings.{text}
use intelli_route_team.Router.Provider.{CompletionRequest, ProviderInfo}
use intelli_route_team.Router.Client.{
  Network, ClientSettings, GeminiBody, responded, unreachable, timed_out, gemini_payload, is_system,
}
use intelli_route_team.Router.Client.Call.{call_provider}
use intelli_route_team.Router.Client.Payload.{is_gemini_role, is_instruction, gemini_payload_lem}
use intelli_route_team.Router.Client.Errors.{IsSound, is_external, call_provider-IsSound}

abbrev gemini : ProviderInfo ℕ
gemini = record {
  name = text "gemini";
  url = text "https://example.org";
  model = text "gemini-2.5-flash";
  provider_type = text "Gemini";
  capability = [];
  cost_per_1k_tokens = 4;
  typical_latency_ms = 1200;
  max_concurrency = 8;
  capability_tier = 3;
  sla_p95_latency_ms = [];
  max_retries = 2;
}

abbrev request : CompletionRequest ℕ
request = record {
  tenant_id = text "acme";
  team_id = none;
  workflow_id = none;
  messages =
      record { role = text "system"; content = text "Be brief." }
      ∷ record { role = text "user"; content = text "Hi" }
      ∷ record { role = text "assistant"; content = text "Hello" }
      ∷ [];
  max_tokens = 16;
  temperature = 0;
  intent_hint = none;
  latency_budget_ms = none;
  confidence_hint = none;
}

abbrev body : GeminiBody
body = record {
  response_id = some (text "r1");
  model_version = none;
  candidates = (some (text "Hello") ∷ none ∷ some (text "there ") ∷ []) ∷ [];
  prompt_token_count = some 3;
  candidates_token_count = none;
}

abbrev net : Network ℕ
net = record {
  post_mock = λ url messages max_tokens limit. timed_out;
  post_groq = λ key payload limit. unreachable;
  post_gemini = λ key model payload limit.
      responded (record { status_code = 200; retry_after = none; body = some body });
}

abbrev settings : ClientSettings ℕ
settings = record { groq_api_key = []; gemini_api_key = text "k"; provider_timeout_s = 30 }

call_provider-IsSound_example :
    IsSound gemini (is_external gemini) (call_provider net settings gemini request none)
call_provider-IsSound_example = call_provider-IsSound gemini net settings request none

gemini_payload_lem_example :
    let p = gemini_payload request in
    (all_by (λ c. is_gemini_role c.0) p.contents ≡ true)
    × (length p.contents ≡ max 1 (length request.messages - count_by is_system request.messages))
    × (is_some p.system_instruction ≡ any_by is_instruction request.messages)
gemini_payload_lem_example = gemini_payload_lem request

-- The instruction is sent apart from the two turns.
two_turns :
    (gemini_payload request).contents ≡ (text "user", text "Hi") ∷ (text "model", text "Hello") ∷ []
unfolding gemini_payload
two_turns = refl
