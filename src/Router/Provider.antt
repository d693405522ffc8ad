-- ===== src/Router/Provider.antt =====
-- The providers and requests of intelliroute/common/models.py, and the scored providers of
-- intelliroute/router/policy.py.
use intelli_route_team.Common.{ℕ, ◌≡◌, ◌↔◌, Bool, true, false, Option, List, Text, Eq, arith}
use intelli_route_team.Common.Dict.{Dict}
use intelli_route_team.Common.Strings.{text}

pub data Intent : Type 0 where
  interactive reasoning batch code : Intent

abbrev pub intent_beq : Intent → Intent → Bool
intent_beq interactive interactive = true
intent_beq reasoning reasoning = true
intent_beq batch batch = true
intent_beq code code = true
intent_beq _ _ = false

pub intent_beq_iff : (a b : Intent) → (intent_beq a b ≡ true) ↔ (a ≡ b)
intent_beq_iff a b = ground arith

instance abbrev pub intent_eq : Eq Intent
intent_eq = record { same = intent_beq; same_iff = intent_beq_iff }

-- `intent.value`
abbrev pub intent_value : Intent → Text
intent_value interactive = text "interactive"
intent_value reasoning = text "reasoning"
intent_value batch = text "batch"
intent_value code = text "code"

pub record ChatMessage : Type 0 where
  pub role : Text
  pub content : Text

pub record CompletionRequest (F : Type 0) : Type 0 where
  pub tenant_id : Text
  pub team_id : Option Text
  pub workflow_id : Option Text
  pub messages : List ChatMessage
  pub max_tokens : ℕ
  pub temperature : F
  pub intent_hint : Option Intent
  pub latency_budget_ms : Option ℕ
  pub confidence_hint : Option F

pub record ProviderInfo (F : Type 0) : Type 0 where
  pub name : Text
  pub url : Text
  pub model : Text
  pub provider_type : Text
  pub capability : Dict Text F
  pub cost_per_1k_tokens : F
  pub typical_latency_ms : F
  pub max_concurrency : ℕ
  pub capability_tier : ℕ
  pub sla_p95_latency_ms : Dict Text F
  pub max_retries : ℕ

-- The sub-scores of a scored provider.
pub record SubScores (F : Type 0) : Type 0 where
  pub latency : F
  pub cost : F
  pub capability : F
  pub success : F

pub record ScoredProvider (F : Type 0) : Type 0 where
  pub provider : ProviderInfo F
  pub score : F
  pub sub_scores : SubScores F

-- `Intent.REASONING` or `Intent.CODE`
abbrev pub is_reasoning_or_code : Intent → Bool
is_reasoning_or_code reasoning = true
is_reasoning_or_code code = true
is_reasoning_or_code _ = false
