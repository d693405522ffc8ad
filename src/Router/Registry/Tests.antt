-- ===== src/Router/Registry/Tests.antt =====
-- The theorems about the registry at concrete inputs.
use Prim.Native.String.{String}
use intelli_route_team.Common.{ℕ, List, [], ◌∷◌}
use intelli_route_team.Common.Strings.{text}
use intelli_route_team.Common.Float.{nat_float}
use intelli_route_team.Router.Provider.{ProviderInfo}
use intelli_route_team.Router.Registry.{
  ProviderRegisterRequest, new_registry, Call, register, beat, remove, discover,
}
use intelli_route_team.Router.Registry.Index.{IsIndexed, discover-IsIndexed, new_registry-IsIndexed}

abbrev info : String → ProviderInfo ℕ
info name = record {
  name = text name;
  url = text "http";
  model = text "m";
  provider_type = text "vllm";
  capability = [];
  cost_per_1k_tokens = 3;
  typical_latency_ms = 400;
  max_concurrency = 4;
  capability_tier = 2;
  sla_p95_latency_ms = [];
  max_retries = 1;
}

abbrev joining : String → String → ProviderRegisterRequest ℕ
joining id name = record {
  provider_id = text id;
  provider = info name;
  lease_ttl_seconds = 30;
  registration_source = text "api";
  model_tier = [];
}

abbrev calls : List (Call ℕ)
calls =
    register (joining "gpu-1" "llama") 10
    ∷ beat (text "gpu-1") 20
    ∷ register (joining "gpu-2" "llama") 25
    ∷ register (joining "" "qwen") 26
    ∷ remove (text "qwen")
    ∷ []

discover-IsIndexed_example : IsIndexed (discover calls (new_registry {F = ℕ}))
discover-IsIndexed_example = discover-IsIndexed calls (new_registry {F = ℕ}) new_registry-IsIndexed
