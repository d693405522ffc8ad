-- ===== src/HealthMonitor/Monitor.antt =====
-- The endpoints of intelliroute/health_monitor/main.py and its polling loop, over the module's
-- globals. The clock's readings are arguments, and so are the answers to the polls: `true` for
-- status 200 with a body that says "healthy".
pub mod Snapshot
use intelli_route_team.Common.{
  ℕ, ◌+◌, Bool, true, false, not, Option, none, some, List, [], ◌∷◌, map, Text, text_eq, ◌==◌,
  if◌then◌else◌, length, count_by,
}
use intelli_route_team.Common.Dict.{Dict, lookup, insert}
use intelli_route_team.Common.Float.{Float, nought, of_ℕ}
use intelli_route_team.HealthMonitor.Breaker.{
  CircuitState, open_, CircuitBreaker, CircuitBreakerConfig, new_breaker, is_open, is_half_open,
  is_closed, allow_request, record_success, record_failure, error_rate,
}

pub record HealthMonitor (F : Type 0) : Type 0 where
  pub config : CircuitBreakerConfig F
  pub breakers : Dict Text (CircuitBreaker F)
  pub provider_urls : Dict Text Text
  pub total_reports : ℕ

-- `ProviderHealth` of common/models.py
pub record ProviderHealth (F : Type 0) : Type 0 where
  pub name : Text
  pub healthy : Bool
  pub error_rate : F
  pub avg_latency_ms : F
  pub circuit_state : CircuitState
  pub consecutive_failures : ℕ
  pub last_checked_unix : F

pub record HealthMonitorStats : Type 0 where
  pub registered_providers : ℕ
  pub total_reports_received : ℕ
  pub open_circuits : ℕ
  pub half_open_circuits : ℕ
  pub closed_circuits : ℕ

module _ {F : Type 0} ⦃fl : Float F⦄ where
  open fl use {round_to}

  abbrev or_new : Option (CircuitBreaker F) → CircuitBreakerConfig F → CircuitBreaker F
  or_new (some b) c = b
  or_new none c = new_breaker c

  -- `_get_breaker`, which also stores a breaker that it makes: the callers write it back.
  unfoldable pub get_breaker : Text → HealthMonitor F → CircuitBreaker F
  get_breaker name m = or_new (lookup name m.breakers) m.config

  abbrev put_breaker : Text → CircuitBreaker F → HealthMonitor F → HealthMonitor F
  put_breaker name b m = record m { breakers = insert name b m.breakers }

  abbrev recorded : Bool → F → CircuitBreaker F → CircuitBreaker F
  recorded success now b = if success then record_success b else record_failure now b

  unfoldable pub register : Text → Text → HealthMonitor F → HealthMonitor F
  register name url m =
      put_breaker name (get_breaker name m)
        (record m { provider_urls = insert name url m.provider_urls })

  unfoldable pub report : Text → Bool → F → HealthMonitor F → HealthMonitor F
  report provider success now m =
      put_breaker provider (recorded success now (get_breaker provider m))
        (record m { total_reports = m.total_reports + 1 })

  unfoldable pub reset_state : HealthMonitor F → HealthMonitor F
  reset_state m = record m { breakers = [] }

  abbrev pub health_of : Text → F → CircuitBreaker F → ProviderHealth F
  health_of name wall b = record {
    name = name;
    healthy = not (is_open b.state);
    error_rate = round_to 3 (error_rate b);
    avg_latency_ms = nought;
    circuit_state = b.state;
    consecutive_failures = b.consecutive_failures;
    last_checked_unix = wall;
  }

  abbrev pub advance : F → Text × CircuitBreaker F → Text × CircuitBreaker F
  advance now (name, b) = (name, (allow_request now b).0)

  -- `snapshot`: every breaker is asked, which moves it from open to half-open after the cooldown.
  unfoldable pub snapshot : F → F → HealthMonitor F → HealthMonitor F × Dict Text (ProviderHealth F)
  snapshot now wall m =
      let advanced = map (advance now) m.breakers in
      (record m { breakers = advanced }, map (λ kv. (kv.0, health_of kv.0 wall kv.1)) advanced)

  unfoldable pub snapshot_one : Text → F → F → HealthMonitor F → HealthMonitor F × ProviderHealth F
  snapshot_one provider now wall m =
      let b = (allow_request now (get_breaker provider m)).0 in
      (put_breaker provider b m, health_of provider wall b)

  unfoldable pub stats : HealthMonitor F → HealthMonitorStats
  stats m = record {
    registered_providers = length m.provider_urls;
    total_reports_received = m.total_reports;
    open_circuits = count_by (λ kv. is_open kv.1.state) m.breakers;
    half_open_circuits = count_by (λ kv. is_half_open kv.1.state) m.breakers;
    closed_circuits = count_by (λ kv. is_closed kv.1.state) m.breakers;
  }

  -- One round of `_poll_loop` over the registered providers, with the answer for each name.
  unfoldable pub poll_round : (Text → Bool) → F → Dict Text Text → HealthMonitor F → HealthMonitor F
  poll_round answers now [] m = m
  poll_round answers now ((name, url) ∷ urls) m =
      poll_round answers now urls
        (put_breaker name (recorded (answers name) now (get_breaker name m)) m)
