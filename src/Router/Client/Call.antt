-- ===== src/Router/Client/Call.antt =====
-- The calls of intelliroute/router/provider_clients.py, and `_call_provider` and `_error_backoff_ms`
-- of intelliroute/router/main.py.
use intelli_route_team.Common.{
  ℕ, Bool, true, false, ◌&&◌, Option, none, some, text_eq, ◌==◌, nat_beq, leb, ltb, if◌then◌else◌,
}
use intelli_route_team.Common.Float.{Float, nought, of_ℕ, fmax}
use intelli_route_team.Common.Strings.{text, lower, is_text}
use intelli_route_team.Router.Provider.{Intent, CompletionRequest, ProviderInfo}
use intelli_route_team.Router.Classify.{classify}
use intelli_route_team.Router.Completion.{
  ErrorKind, rate_limited, timeout, transport_error, server_error, client_error, http_error,
  forced_failure, unknown, CallResult,
}
use intelli_route_team.Router.Modes.{
  Modes, is_provider_force_failed, provider_timeout_s, sla_backoff_ms,
}
use intelli_route_team.Router.Client.{
  ProviderCallError, HttpOutcome, timed_out, unreachable, responded, ProviderReply, Network,
  ClientSettings, ClientResult, returned, failed, raised, gemini_payload, groq_payload, groq_reply,
  gemini_reply, or_mock, plain_error, transport,
}

abbrev pub with_body : {B : Type 0} → Option B → (B → ClientResult) → ClientResult
with_body none k = raised
with_body (some b) k = k b

-- The tuple that `_call_provider` returns.
pub record CallOutcome (F : Type 0) : Type 0 where
  pub ok : Bool
  pub latency_ms : F
  pub reply : Option ProviderReply
  pub error_kind : Option ErrorKind
  pub retry_after_ms : ℕ
  pub status_code : Option ℕ
  pub retryable : Bool

abbrev prompt_tokens_of : Option ProviderReply → ℕ
prompt_tokens_of none = 0
prompt_tokens_of (some r) = r.prompt_tokens

abbrev completion_tokens_of : Option ProviderReply → ℕ
completion_tokens_of none = 0
completion_tokens_of (some r) = r.completion_tokens

-- What `_call_provider` makes of what `call_provider` did.
abbrev pub outcome_of : {F : Type 0} → F → ClientResult → CallOutcome F
outcome_of latency_ms (returned ok reply) = record {
  ok = ok;
  latency_ms = latency_ms;
  reply = reply;
  error_kind = none;
  retry_after_ms = 0;
  status_code = none;
  retryable = true;
}
outcome_of latency_ms (failed e) = record {
  ok = false;
  latency_ms = latency_ms;
  reply = none;
  error_kind = some e.kind;
  retry_after_ms = e.retry_after_ms;
  status_code = e.status_code;
  retryable = e.retryable;
}
outcome_of latency_ms raised = record {
  ok = false;
  latency_ms = latency_ms;
  reply = none;
  error_kind = some unknown;
  retry_after_ms = 0;
  status_code = none;
  retryable = false;
}

module _ {F : Type 0} ⦃fl : Float F⦄ where
  open fl use {ratio, mul, trunc}

  -- `_parse_retry_after_ms`: `max(0, int(float(raw) * 1000))`
  abbrev pub parse_retry_after_ms : Option F → ℕ
  parse_retry_after_ms none = 0
  parse_retry_after_ms (some s) = trunc (fmax nought (mul s (of_ℕ 1000)))

  -- `_http_error`, of the response's status and header
  unfoldable pub http_failure : ℕ → Option F → ProviderCallError
  http_failure status header =
      let retry_after_ms = parse_retry_after_ms header in
      if nat_beq status 429
      then record {
        kind = rate_limited;
        status_code = some status;
        retry_after_ms = retry_after_ms;
        retryable = true;
      }
      else if leb 500 status && ltb status 600
      then record {
        kind = server_error;
        status_code = some status;
        retry_after_ms = retry_after_ms;
        retryable = true;
      }
      else if leb 400 status && ltb status 500
      then record {
        kind = client_error;
        status_code = some status;
        retry_after_ms = 0;
        retryable = false;
      }
      else record {
        kind = http_error;
        status_code = some status;
        retry_after_ms = retry_after_ms;
        retryable = true;
      }

  -- What follows each `http.post`: the two `except` clauses, the test of the status, and the rest.
  unfoldable pub after_post : {B : Type 0} → HttpOutcome F B → (B → ClientResult) → ClientResult
  after_post timed_out k = failed (transport timeout)
  after_post unreachable k = failed (transport transport_error)
  after_post (responded r) k =
      if nat_beq r.status_code 200
      then with_body r.body k
      else failed (http_failure r.status_code r.retry_after)

  -- `settings.provider_timeout_s if timeout_s is None else timeout_s`
  abbrev or_configured : F → Option F → F
  or_configured d none = d
  or_configured d (some t) = t

  module _ (net : Network F) (settings : ClientSettings F) where
    open net use {post_mock, post_groq, post_gemini}

    -- `call_provider`
    unfoldable pub call_provider : ProviderInfo F → CompletionRequest F → Option F → ClientResult
    call_provider info req timeout_s =
        let provider_type = lower (or_mock info.provider_type) in
        let limit = or_configured settings.provider_timeout_s timeout_s in
        if provider_type == text "mock"
        then after_post (post_mock info.url req.messages req.max_tokens limit)
            (λ reply. returned true (some reply))
        else if provider_type == text "groq"
        then (if is_text settings.groq_api_key
            then after_post (post_groq settings.groq_api_key (groq_payload info req) limit)
                (groq_reply info)
            else failed plain_error)
        else if provider_type == text "gemini"
        then (if is_text settings.gemini_api_key
            then after_post
                (post_gemini settings.gemini_api_key info.model (gemini_payload req) limit)
                (gemini_reply info)
            else failed plain_error)
        else failed plain_error

    -- `_call_provider`, which takes `latency_ms`.
    unfoldable pub call_or_fail : Modes → F → ProviderInfo F → CompletionRequest F → CallOutcome F
    call_or_fail modes latency_ms info req =
        if is_provider_force_failed info.name modes
        then record {
          ok = false;
          latency_ms = latency_ms;
          reply = none;
          error_kind = some forced_failure;
          retry_after_ms = 0;
          status_code = some 503;
          retryable = false;
        }
        else outcome_of latency_ms (
            call_provider info req
              (some (provider_timeout_s settings.provider_timeout_s info (classify req))))

  -- The answer of a call as the attempt loop reads it.
  abbrev pub as_result : CallOutcome F → CallResult F
  as_result c = record {
    ok = c.ok;
    latency_ms = c.latency_ms;
    error_kind = c.error_kind;
    retryable = c.retryable;
    prompt_tokens = prompt_tokens_of c.reply;
    completion_tokens = completion_tokens_of c.reply;
  }

  abbrev scale_by : Option ErrorKind → F → ℕ → F
  scale_by (some rate_limited) base retry_after_ms = fmax base (of_ℕ retry_after_ms)
  scale_by (some timeout) base retry_after_ms = mul base (ratio 3 2)
  scale_by (some server_error) base retry_after_ms = mul base (ratio 6 5)
  scale_by (some transport_error) base retry_after_ms = mul base (ratio 11 10)
  scale_by _ base retry_after_ms = base

  -- `_error_backoff_ms`; `random` is `random.random()`
  unfoldable pub error_backoff_ms : F → ProviderInfo F → Intent → ℕ → Option ErrorKind → ℕ → F
  error_backoff_ms random info intent local_attempt error_kind retry_after_ms =
      scale_by error_kind (sla_backoff_ms random info intent local_attempt) retry_after_ms
