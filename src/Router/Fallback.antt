-- ===== src/Router/Fallback.antt =====
-- The order of the next attempts after a failure: `reorder_after_failure` of
-- intelliroute/router/policy.py and the ladder of intelliroute/router/main.py.
pub mod Order
use intelli_route_team.Common.{
  ℕ, Bool, true, false, not, ◌&&◌, ◌||◌, List, [], ◌∷◌, ◌++◌, Text, text_eq, ◌==◌, leb, ltb, length,
  filter_by, if◌then◌else◌,
}
use intelli_route_team.Common.Float.{Float, flt}
use intelli_route_team.Common.Strings.{text, text_ltb, lower, strip, starts_with}
use intelli_route_team.Common.Sort.{sort_by}
use intelli_route_team.Router.Provider.{Intent, ProviderInfo, ScoredProvider, is_reasoning_or_code}

-- `_provider_key`
unfoldable pub provider_key : Text → Text
provider_key name = lower (strip name)

-- `provider.provider_type or "mock"`
abbrev or_mock : Text → Text
or_mock [] = text "mock"
or_mock (c ∷ t) = c ∷ t

module _ {F : Type 0} where
  -- `_provider_fallback_group`
  unfoldable pub provider_fallback_group : ProviderInfo F → ℕ
  unfolding provider_key
  provider_fallback_group p =
      let name = provider_key p.name in
      let ptype = lower (strip (or_mock p.provider_type)) in
      if name == text "gemini" || ptype == text "gemini"
      then 0
      else if name == text "groq" || ptype == text "groq"
      then 1
      else if ptype == text "mock" || starts_with name (text "mock-")
      then 2
      else 3

  -- `reorder_after_failure`
  unfoldable pub reorder_after_failure : List (ScoredProvider F) → ℕ → List (ScoredProvider F)
  reorder_after_failure remaining failed_tier =
      filter_by (λ s. leb s.provider.capability_tier failed_tier) remaining
      ++ filter_by (λ s. ltb failed_tier s.provider.capability_tier) remaining

module _ {F : Type 0} ⦃fl : Float F⦄ where
  open fl use {fle}

  -- `(group, -score, latency, name)` of `a` is less than that of `b`.
  unfoldable pub ladder_less : ScoredProvider F → ScoredProvider F → Bool
  ladder_less a b =
      let g = provider_fallback_group a.provider in
      let h = provider_fallback_group b.provider in
      if ltb g h
      then true
      else if ltb h g
      then false
      else if flt b.score a.score
      then true
      else if flt a.score b.score
      then false
      else if flt a.provider.typical_latency_ms b.provider.typical_latency_ms
      then true
      else if flt b.provider.typical_latency_ms a.provider.typical_latency_ms
      then false
      else text_ltb a.provider.name b.provider.name

  -- `_apply_reasoning_code_fallback_ladder`
  unfoldable pub apply_ladder : List (ScoredProvider F) → Intent → List (ScoredProvider F)
  apply_ladder ranked intent =
      if not (is_reasoning_or_code intent) || ltb (length ranked) 2
      then ranked
      else sort_by ladder_less ranked

  -- `_reorder_pending_after_failure`
  unfoldable pub reorder_pending : List (ScoredProvider F) → ℕ → Intent → List (ScoredProvider F)
  reorder_pending remaining failed_tier intent =
      apply_ladder (reorder_after_failure remaining failed_tier) intent
