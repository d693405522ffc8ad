-- ===== src/MockProvider.antt =====
-- intelliroute/mock_provider/main.py: the injected faults, a chat request, and the loop that
-- registers the mock with the router and sends its heartbeats. The settings of the process, the
-- clock and the chances are arguments.
pub mod Faults
pub mod Backoff
mod Tests
use intelli_route_team.Common.{
  ℕ, ◌+◌, ◌-◌, ◌/◌, Bool, true, false, not, ◌||◌, Option, none, some, List, [], ◌∷◌, ◌++◌, map,
  Text, min, max, length, nat_beq, if◌then◌else◌,
}
use intelli_route_team.Common.Float.{Float, nought, of_ℕ, flt, fmin}
use intelli_route_team.Common.Strings.{text, join}
use intelli_route_team.Router.Provider.{ChatMessage}
use intelli_route_team.Router.Client.{Response, HttpOutcome, timed_out, responded, ProviderReply}

-- `_state`
pub record FaultState : Type 0 where
  pub force_fail : Bool
  pub force_timeout : Bool
  pub force_rate_limit : Bool
  pub force_malformed : Bool

-- The calls of the admin endpoints.
pub data Admin : Type 0 where
  set_fail : Bool → Admin
  set_timeout : Bool → Admin
  set_rate_limit : Bool → Admin
  set_malformed : Bool → Admin
  reset : Admin

unfoldable pub administer : Admin → FaultState → FaultState
administer (set_fail b) s = record s { force_fail = b }
administer (set_timeout b) s = record s { force_timeout = b }
administer (set_rate_limit b) s = record s { force_rate_limit = b }
administer (set_malformed b) s = record s { force_malformed = b }
administer reset s = record {
  force_fail = false;
  force_timeout = false;
  force_rate_limit = false;
  force_malformed = false;
}

-- `NAME`, `MODEL`, a new id, and the text that the f-string makes of a prompt and a token count.
pub record Identity : Type 0 where
  pub name : Text
  pub model : Text
  pub new_id : Text
  pub synthesized : Text → ℕ → Text

abbrev prompt_of : List ChatMessage → Text
prompt_of messages = join (text " ") (map (λ m. m.content) messages)

abbrev prompt_tokens_for : List ChatMessage → ℕ
prompt_tokens_for messages = max 1 (length (prompt_of messages) / 4)

abbrev completion_tokens_for : List ChatMessage → ℕ → ℕ
completion_tokens_for messages max_tokens = min max_tokens (max 1 (prompt_tokens_for messages / 2))

unfoldable pub mock_reply : Identity → List ChatMessage → ℕ → ProviderReply
mock_reply me messages max_tokens = record {
  id = me.new_id;
  provider = me.name;
  model = me.model;
  content = me.synthesized (prompt_of messages) (completion_tokens_for messages max_tokens);
  prompt_tokens = prompt_tokens_for messages;
  completion_tokens = completion_tokens_for messages max_tokens;
}

module _ {F : Type 0} ⦃fl : Float F⦄ where
  open fl use {ratio, add, sub, mul, fle}

  abbrev bare : ℕ → Response F ProviderReply
  bare status = record { status_code = status; retry_after = none; body = none }

  -- `chat` once its simulated latency is over; `limit` seconds after the request, the client gives
  -- up. `unlucky` is `random.random() < FAILURE_RATE`.
  abbrev answered :
      Identity → FaultState → Bool → F → List ChatMessage → ℕ → F → HttpOutcome F ProviderReply
  answered me s unlucky latency messages max_tokens limit =
      if s.force_fail || unlucky
      then responded (bare 503)
      else if s.force_timeout
      then (if flt limit (add latency (of_ℕ 300)) then timed_out else responded (bare 504))
      else if s.force_rate_limit
      then responded (record { status_code = 429; retry_after = some (of_ℕ 5); body = none })
      else if s.force_malformed
      then responded (bare 200)
      else responded (record {
        status_code = 200;
        retry_after = none;
        body = some (mock_reply me messages max_tokens);
      })

  -- `chat`, as a client sees it: `latency` is its first sleep, in seconds.
  unfoldable pub chat :
      Identity → FaultState → Bool → F → List ChatMessage → ℕ → F → HttpOutcome F ProviderReply
  chat me s unlucky latency messages max_tokens limit =
      if flt limit latency
      then timed_out
      else answered me s unlucky latency messages max_tokens limit

-- The variables of `_registration_heartbeat_loop`.
pub record Registration (F : Type 0) : Type 0 where
  pub registered : Bool
  pub backoff_s : F
  pub next_heartbeat_at : F

-- What a round of the loop does besides: nothing, or a sleep of so many seconds.
pub data Pause (F : Type 0) : Type 0 where
  no_pause : Pause F
  sleeps : F → Pause F

module _ {F : Type 0} ⦃fl : Float F⦄ (heartbeat_interval : F) where
  open fl use {ratio, add, sub, mul}

  abbrev one : F
  one = of_ℕ 1

  unfoldable pub started : Registration F
  started = record { registered = false; backoff_s = of_ℕ 1; next_heartbeat_at = nought }

  -- `backoff_s = min(backoff_s * 1.25, 10.0)`
  abbrev backed_off : Registration F → Registration F
  backed_off s = record s { backoff_s = fmin (mul s.backoff_s (ratio 5 4)) (of_ℕ 10) }

  abbrev is_due : F → Registration F → Bool
  is_due now s = not (flt nought (sub s.next_heartbeat_at now))

  -- After the `post` of a registration or of a heartbeat, or after its exception (`none`).
  abbrev after_register : F → Option ℕ → Registration F → Registration F × Pause F
  after_register now none s = (record (backed_off s) { registered = false }, sleeps s.backoff_s)
  after_register now (some status) s =
      if nat_beq status 200
      then (
        record {
          registered = true;
          backoff_s = of_ℕ 1;
          next_heartbeat_at = add now heartbeat_interval;
        },
        no_pause,
      )
      else (backed_off s, sleeps s.backoff_s)

  abbrev after_heartbeat : F → Option ℕ → Registration F → Registration F × Pause F
  after_heartbeat now none s = (record (backed_off s) { registered = false }, sleeps s.backoff_s)
  after_heartbeat now (some status) s =
      if nat_beq status 200
      then (
        record s { backoff_s = of_ℕ 1; next_heartbeat_at = add now heartbeat_interval },
        no_pause,
      )
      else (record s { registered = false; backoff_s = of_ℕ 1 }, no_pause)

  -- One round of `while True` at the time `now`; `reply` is the status of the answer if the round
  -- sends something, and `later` the time after it.
  unfoldable pub round : F → Option ℕ → F → Registration F → Registration F × Pause F
  round now reply later s =
      if not s.registered
      then after_register later reply s
      else if is_due now s
      then after_heartbeat later reply s
      else (s, sleeps (fmin (sub s.next_heartbeat_at now) (of_ℕ 1)))
