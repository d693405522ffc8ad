-- ===== src/Config.antt =====
-- intelliroute/common: the `.env` file (env.py), the environment (config.py), the modes
-- (provider_mode.py) and the mock catalogue, and the bootstrap of intelliroute/router/main.py. The
-- process's environment is a dictionary.
pub mod Dotenv
pub mod Bootstrap
mod Tests
use intelli_route_team.Common.{
  ℕ, zero, suc, ◌+◌, ◌/◌, ◌%◌, Bool, true, false, ◌&&◌, ◌||◌, Option, none, some, List, [], ◌∷◌,
  ◌++◌, Text, text_eq, ◌==◌, ltb, any_by, if◌then◌else◌, map,
}
use intelli_route_team.Common.Dict.{Dict, lookup}
use intelli_route_team.Common.Float.{Float}
use intelli_route_team.Common.Strings.{text, strip, lower, is_text}
use intelli_route_team.Router.Provider.{ProviderInfo}

abbrev pub Environ : Type 0
Environ = Dict Text Text

-- `os.environ.get(name, default)`
abbrev pub get_env : Text → Text → Environ → Text
get_env name default env = elim (lookup name env) [ none ↦ default | some v ↦ v ]

abbrev pub truthy : List Text
truthy = text "1" ∷ text "true" ∷ text "yes" ∷ text "on" ∷ []

-- `_env_bool`
unfoldable pub env_bool : Text → Bool → Environ → Bool
env_bool name default env = elim (lookup name env) [
  | none ↦ default
  | some raw ↦ any_by (λ t. lower (strip raw) == t) truthy
]

pub data ProviderMode : Type 0 where
  auto mock_only external_only hybrid : ProviderMode

abbrev mode_named : Text → ProviderMode
mode_named m =
    if m == text "mock_only"
    then mock_only
    else if m == text "external_only"
    then external_only
    else if m == text "hybrid"
    then hybrid
    else auto

-- `normalize_provider_mode`
unfoldable pub normalize_provider_mode : Option Text → ProviderMode
normalize_provider_mode none = auto
normalize_provider_mode (some raw) = mode_named (lower (strip raw))

-- The fields of `Settings` that the bootstrap reads.
pub record Settings : Type 0 where
  pub host : Text
  pub mock_fast_port : ℕ
  pub mock_smart_port : ℕ
  pub mock_cheap_port : ℕ
  pub gemini_api_key : Text
  pub groq_api_key : Text
  pub gemini_model : Text
  pub groq_model : Text
  pub use_mock_providers : Bool
  pub provider_mode : Text

unfoldable pub effective_provider_mode : Settings → ProviderMode
effective_provider_mode s =
    if s.use_mock_providers then mock_only else normalize_provider_mode (some s.provider_mode)

abbrev pub skips_for : ProviderMode → Bool → Bool
skips_for mock_only keys = false
skips_for hybrid keys = false
skips_for external_only keys = true
skips_for auto keys = keys

-- `should_skip_mock_uvicorn_subprocesses`
unfoldable pub should_skip_mock_uvicorn_subprocesses : Settings → Bool
should_skip_mock_uvicorn_subprocesses s =
    skips_for (effective_provider_mode s) (is_text s.groq_api_key || is_text s.gemini_api_key)

digits : ℕ → ℕ → Text → Text
digits zero n acc = acc
digits (suc fuel) n acc =
    let longer = (b'0' + n % 10) ∷ acc in
    let rest = digits fuel (n / 10) longer in if ltb n 10 then longer else rest

-- `str(n)`
unfoldable pub decimal : ℕ → Text
unfolding digits
decimal n = digits (suc n) n []

-- `f"http://{host}:{port}"`
abbrev url_at : Text → ℕ → Text
url_at host port = text "http://" ++ (host ++ (text ":" ++ decimal port))

module _ {F : Type 0} ⦃fl : Float F⦄ where
  open fl use {ratio}

  abbrev skills : ℕ → ℕ → ℕ → ℕ → Dict Text F
  skills interactive reasoning batch code =
      (text "interactive", ratio interactive 100)
      ∷ (text "reasoning", ratio reasoning 100)
      ∷ (text "batch", ratio batch 100)
      ∷ (text "code", ratio code 100)
      ∷ []

  -- `ProviderInfo(…)` with the defaults of common/models.py for what the catalogues leave out.
  abbrev entry : Text → Text → Text → Text → Dict Text F → F → ℕ → ℕ → ProviderInfo F
  entry name url model kind capability cost latency tier = record {
    name = name;
    url = url;
    model = model;
    provider_type = kind;
    capability = capability;
    cost_per_1k_tokens = cost;
    typical_latency_ms = ratio latency 1;
    max_concurrency = 32;
    capability_tier = tier;
    sla_p95_latency_ms = [];
    max_retries = 3;
  }

  abbrev mock_fast : Text → ProviderInfo F
  mock_fast url =
      entry (text "mock-fast") url (text "fast-1") (text "mock") (skills 85 45 50 60) (ratio 2 1000)
        30 2

  abbrev mock_smart : Text → ProviderInfo F
  mock_smart url =
      entry (text "mock-smart") url (text "smart-1") (text "mock") (skills 70 95 80 90)
        (ratio 20 1000) 120 3

  abbrev mock_cheap : Text → ProviderInfo F
  mock_cheap url =
      entry (text "mock-cheap") url (text "cheap-1") (text "mock") (skills 55 40 75 45)
        (ratio 3 10000) 80 1

  -- `list_mock_provider_infos_from_settings`: `mock_provider_info` of each name
  unfoldable pub mock_infos : Settings → List (ProviderInfo F)
  mock_infos s =
      mock_fast (url_at s.host s.mock_fast_port)
      ∷ mock_smart (url_at s.host s.mock_smart_port)
      ∷ mock_cheap (url_at s.host s.mock_cheap_port)
      ∷ []

  -- `_external_bootstrap`
  abbrev pub groq_info : Settings → ProviderInfo F
  groq_info s =
      entry (text "groq") (text "https://api.groq.com/openai/v1") s.groq_model (text "groq")
        (skills 93 76 88 74) (ratio 7 10000) 500 2

  abbrev pub gemini_info : Settings → ProviderInfo F
  gemini_info s =
      entry (text "gemini") (text "https://generativelanguage.googleapis.com/v1beta") s.gemini_model
        (text "gemini") (skills 72 97 68 91) (ratio 35 10000) 1200 3

  -- `_external_bootstrap`
  unfoldable pub external_infos : Settings → List (ProviderInfo F)
  external_infos s =
      (if is_text s.groq_api_key then groq_info s ∷ [] else [])
      ++ (if is_text s.gemini_api_key then gemini_info s ∷ [] else [])

pub record BootstrapResult (F : Type 0) : Type 0 where
  pub providers : List (ProviderInfo F)
  pub external_only_no_keys : Bool
  pub skipped_mock_bootstrap : Bool

abbrev result : {F : Type 0} → List (ProviderInfo F) → Bool → Bool → BootstrapResult F
result ps no_keys skipped = record {
  providers = ps;
  external_only_no_keys = no_keys;
  skipped_mock_bootstrap = skipped;
}

module _ {F : Type 0} where
  abbrev externals_or_error : List (ProviderInfo F) → BootstrapResult F
  externals_or_error [] = result [] true false
  externals_or_error (p ∷ ps) = result (p ∷ ps) false false

  abbrev auto_result : List (ProviderInfo F) → List (ProviderInfo F) → Bool → BootstrapResult F
  auto_result [] mocks dynamic = if dynamic then result [] false true else result mocks false false
  auto_result (p ∷ ps) mocks dynamic = result (p ∷ ps) false false

  abbrev pub result_for :
      ProviderMode → List (ProviderInfo F) → List (ProviderInfo F) → Bool → BootstrapResult F
  result_for mock_only external mocks dynamic =
      if dynamic then result [] false true else result mocks false false
  result_for external_only external mocks dynamic = externals_or_error external
  result_for hybrid external mocks dynamic =
      if dynamic then result external false true else result (external ++ mocks) false false
  result_for auto external mocks dynamic = auto_result external mocks dynamic

  -- `build_bootstrap_result`, without the word for the log.
  unfoldable pub build_bootstrap_result :
      Settings → List (ProviderInfo F) → List (ProviderInfo F) → Text → BootstrapResult F
  build_bootstrap_result s external mocks mock_registration_mode =
      result_for (effective_provider_mode s) external mocks
        (mock_registration_mode == text "dynamic")
