-- ===== src/Router/Modes.antt =====
-- The routing modes of intelliroute/router/main.py: the module's globals for the mode, the cursor of
-- round robin and the forced failures, the candidates' order in each mode, and the waits and the
-- timeout of a call. `random.random()` and the configured timeout are arguments.
pub mod Candidates
pub mod Turns
pub mod Settings
mod Tests
use intelli_route_team.Common.{
  ℕ, zero, suc, ◌+◌, ◌-◌, ◌%◌, Bool, true, false, not, ◌&&◌, ◌||◌, Option, none, some, List, [],
  ◌∷◌, ◌++◌, Text, text_eq, ◌==◌, ltb, max, length, take, drop, any_by, if◌then◌else◌,
}
use intelli_route_team.Common.Dict.{Dict, lookup, insert, erase}
use intelli_route_team.Common.Float.{Float, nought, of_ℕ, flt, fmax, fmin}
use intelli_route_team.Common.Sort.{sort_by}
use intelli_route_team.Common.Strings.{text, text_ltb, lower, strip}
use intelli_route_team.HealthMonitor.Monitor.{ProviderHealth}
use intelli_route_team.Router.Provider.{
  Intent, intent_value, ProviderInfo, SubScores, ScoredProvider, CompletionRequest,
}
use intelli_route_team.Router.Policy.{RoutingPolicy, rank}
use intelli_route_team.Router.Fallback.{provider_key, apply_ladder}

-- `_routing_mode`, `_rr_cursor` and `_forced_provider_failures`
pub record Modes : Type 0 where
  pub routing_mode : Text
  pub rr_cursor : ℕ
  pub forced_failures : Dict Text Bool

abbrev pub supported_modes : List Text
supported_modes =
    text "intelliroute"
    ∷ text "round_robin"
    ∷ text "cheapest_first"
    ∷ text "latency_first"
    ∷ text "premium_first"
    ∷ []

abbrev pub is_supported : Text → Bool
is_supported mode = any_by (λ m. m == mode) supported_modes

-- `mode or "intelliroute"`
abbrev or_default : Text → Text
or_default [] = text "intelliroute"
or_default (c ∷ t) = c ∷ t

abbrev pub mode_of : Text → Text
mode_of mode = lower (strip (or_default mode))

-- `_get_routing_mode`
unfoldable pub get_routing_mode : Modes → Text
get_routing_mode s =
    let mode = mode_of s.routing_mode in if is_supported mode then mode else text "intelliroute"

-- `_set_routing_mode`, which raises `ValueError` for an unsupported mode
unfoldable pub set_routing_mode : Text → Modes → Option Modes
set_routing_mode mode s =
    let candidate = mode_of mode in
    if is_supported candidate then some (record s { routing_mode = candidate }) else none

abbrev pub is_empty : Text → Bool
is_empty [] = true
is_empty (c ∷ t) = false

-- `_set_provider_force_failed`
unfoldable pub set_provider_force_failed : Text → Bool → Modes → Modes
set_provider_force_failed name fail s =
    let key = provider_key name in
    let marked = record s { forced_failures = insert key true s.forced_failures } in
    let cleared = record s { forced_failures = erase key s.forced_failures } in
    if is_empty key then s else if fail then marked else cleared

abbrev or_false : Option Bool → Bool
or_false none = false
or_false (some b) = b

-- `_is_provider_force_failed`
unfoldable pub is_provider_force_failed : Text → Modes → Bool
is_provider_force_failed name s = or_false (lookup (provider_key name) s.forced_failures)

-- What `/reset` does with these globals.
unfoldable pub reset_modes : Bool → Bool → Modes → Modes
reset_modes reset_routing_mode reset_provider_force_failures s = record {
  routing_mode = if reset_routing_mode then text "intelliroute" else s.routing_mode;
  rr_cursor = 0;
  forced_failures = if reset_provider_force_failures then [] else s.forced_failures;
}

module _ {F : Type 0} ⦃fl : Float F⦄ where
  open fl use {ratio, add, sub, mul, div, fle, round_to}

  abbrev one : F
  one = ratio 1 1

  -- `_naive_scored`, from the item of index `i` on
  unfoldable pub naive_from : ℕ → ℕ → List (ProviderInfo F) → List (ScoredProvider F)
  naive_from i n [] = []
  naive_from i n (p ∷ ps) =
      record {
        provider = p;
        score = round_to 6 (sub one (div (of_ℕ i) (of_ℕ n)));
        sub_scores = record {
          latency = nought;
          cost = nought;
          capability = nought;
          success = nought;
        };
      }
      ∷ naive_from (i + 1) n ps

  abbrev pub naive_scored : List (ProviderInfo F) → List (ScoredProvider F)
  naive_scored items = naive_from 0 (max 1 (length items)) items

  abbrev pub name_less : ProviderInfo F → ProviderInfo F → Bool
  name_less a b = text_ltb a.name b.name

  -- The first of two tuples is less by its first item, or by the rest if the first are equal.
  abbrev then_by : F → F → Bool → Bool
  then_by x y rest = flt x y || (not (flt y x) && rest)

  abbrev pub cheaper : ProviderInfo F → ProviderInfo F → Bool
  cheaper a b = then_by a.cost_per_1k_tokens b.cost_per_1k_tokens (name_less a b)

  abbrev pub faster : ProviderInfo F → ProviderInfo F → Bool
  faster a b = then_by a.typical_latency_ms b.typical_latency_ms (name_less a b)

  abbrev pub more_premium : ProviderInfo F → ProviderInfo F → Bool
  more_premium a b =
      ltb b.capability_tier a.capability_tier
      || (not (ltb a.capability_tier b.capability_tier)
          && then_by a.typical_latency_ms b.typical_latency_ms (cheaper a b))

  -- `ordered[start:] + ordered[:start]`
  abbrev pub rotated : ℕ → List (ProviderInfo F) → List (ProviderInfo F)
  rotated cursor [] = []
  rotated cursor (p ∷ ps) =
      let start = cursor % length (p ∷ ps) in drop start (p ∷ ps) ++ take start (p ∷ ps)

  abbrev after_turn : List (ProviderInfo F) → Modes → Modes
  after_turn [] s = s
  after_turn (p ∷ ps) s = record s { rr_cursor = s.rr_cursor + 1 }

  -- `_rank_candidates`
  unfoldable pub rank_candidates :
      Text
      → RoutingPolicy F
      → List (ProviderInfo F)
      → Dict Text (ProviderHealth F)
      → Intent
      → CompletionRequest F
      → Modes
      → List (ScoredProvider F) × Modes
  rank_candidates mode policy candidates health intent req s =
      let turned = naive_scored (rotated s.rr_cursor (sort_by name_less candidates)) in
      let cheap = naive_scored (sort_by cheaper candidates) in
      let quick = naive_scored (sort_by faster candidates) in
      let premium = naive_scored (sort_by more_premium candidates) in
      let ranked = rank policy candidates health (record {
        intent = intent;
        latency_budget_ms = req.latency_budget_ms;
        confidence_hint = req.confidence_hint;
        premium_threshold = ratio 7 10;
      }) in
      if mode == text "round_robin"
      then (turned, after_turn candidates s)
      else if mode == text "cheapest_first"
      then (cheap, s)
      else if mode == text "latency_first"
      then (quick, s)
      else if mode == text "premium_first"
      then (premium, s)
      else (apply_ladder ranked intent, s)

  abbrev or_nought : Option F → F
  or_nought none = nought
  or_nought (some x) = x

  abbrev sla_of : ProviderInfo F → Intent → F
  sla_of p intent = or_nought (lookup (intent_value intent) p.sla_p95_latency_ms)

  abbrev doubled : ℕ → F → F
  doubled zero x = x
  doubled (suc n) x = mul (of_ℕ 2) (doubled n x)

  -- The wait of `_sla_backoff_ms` before its jitter.
  unfoldable pub bounded_backoff : ProviderInfo F → Intent → ℕ → F
  bounded_backoff p intent attempt =
      let sla = sla_of p intent in
      let cap = if flt nought sla then fmax (of_ℕ 50) (div sla (of_ℕ 10)) else of_ℕ 200 in
      fmin (doubled (attempt - 1) (of_ℕ 20)) cap

  -- `_sla_backoff_ms`
  unfoldable pub sla_backoff_ms : F → ProviderInfo F → Intent → ℕ → F
  sla_backoff_ms random p intent attempt =
      mul (bounded_backoff p intent attempt) (add one (mul random (ratio 1 4)))

  -- `_provider_timeout_s`
  unfoldable pub provider_timeout_s : F → ProviderInfo F → Intent → F
  provider_timeout_s configured p intent =
      let sla = sla_of p intent in
      if fle sla nought
      then configured
      else fmin configured (fmax (ratio 1 2) (mul (div sla (of_ℕ 1000)) (ratio 3 2)))
