-- ===== src/MockProvider/Faults.antt =====
-- What the router makes of the faults that can be injected into a mock provider.
use intelli_route_team.Common.{
  ◌≡◌, ap, ◌∙◌, Bool, true, false, ◌||◌, Option, none, some, text_eq, ◌==◌, if◌then◌else◌, arith,
}
use intelli_route_team.Common.Float.{Float, nought, of_ℕ, flt, fmax, IsWhole}
use intelli_route_team.Common.Strings.{text, lower}
use intelli_route_team.Router.Provider.{CompletionRequest, ProviderInfo}
use intelli_route_team.Router.Classify.{classify}
use intelli_route_team.Router.Modes.{Modes, is_provider_force_failed, provider_timeout_s}
use intelli_route_team.Router.Completion.{ErrorKind, rate_limited, timeout, server_error, unknown}
use intelli_route_team.Router.Client.{
  HttpOutcome, ProviderReply, Network, ClientSettings, or_mock, returned,
}
use intelli_route_team.Router.Client.Call.{
  after_post, outcome_of, http_failure, call_provider, call_or_fail, parse_retry_after_ms,
}
use intelli_route_team.MockProvider.{FaultState, Identity, chat}

abbrev pub is_none : Option ErrorKind → Bool
is_none none = true
is_none (some k) = false

abbrev pub is_rate_limited : Option ErrorKind → Bool
is_rate_limited (some rate_limited) = true
is_rate_limited _ = false

-- Only an unreadable answer is not worth another try.
abbrev pub is_retryable : Option ErrorKind → Bool
is_retryable (some unknown) = false
is_retryable _ = true

module _ {F : Type 0} ⦃fl : Float F⦄ where
  -- The error that a call is meant to show as: it is too slow, or else the first fault that is set.
  abbrev pub expected_error : FaultState → Bool → F → F → Option ErrorKind
  expected_error s unlucky latency limit =
      if flt limit latency
      then some timeout
      else if s.force_fail || unlucky
      then some server_error
      else if s.force_timeout
      then some (if flt limit (fl.add latency (of_ℕ 300)) then timeout else server_error)
      else if s.force_rate_limit
      then some rate_limited
      else if s.force_malformed
      then some unknown
      else none

  module _ (net : Network F) (settings : ClientSettings F) (me : Identity) (s : FaultState)
      (unlucky : Bool) (latency : F) (modes : Modes) (latency_ms : F) (info : ProviderInfo F)
      (req : CompletionRequest F) where
    -- How long `_call_provider` waits.
    abbrev pub patience : F
    patience = provider_timeout_s settings.provider_timeout_s info (classify req)

    abbrev pub answer : HttpOutcome F ProviderReply
    answer = chat me s unlucky latency req.messages req.max_tokens patience

    posted :
        (o : HttpOutcome F ProviderReply)
        → lower (or_mock info.provider_type) == text "mock" ≡ true
        → is_provider_force_failed info.name modes ≡ false
        → net.post_mock info.url req.messages req.max_tokens patience ≡ o
        → call_or_fail net settings modes latency_ms info req
          ≡ outcome_of latency_ms (after_post o (λ reply. returned true (some reply)))
    unfolding call_or_fail call_provider
    posted o h k e = rw (k, h, e)

    five_seconds : IsWhole F → parse_retry_after_ms {F = F} (some (of_ℕ 5)) ≡ 5000
    five_seconds laws =
        let product : fl.mul (of_ℕ 5) (of_ℕ 1000) ≡ of_ℕ 5000 = laws.mul_of 5 1000 in
        ap (λ x. fl.trunc (fmax nought x)) product ∙ rw (laws.le_of 5000 0) (laws.trunc_of 5000)

    -- Where the router does not itself fail the provider, its call of a mock reports a timeout if the
    -- mock's latency is above the router's patience, and else the error of the first fault that is
    -- set; a failure by chance counts as the first of them, and a hung mock is a timeout unless the
    -- patience covers its latency and 300 seconds, when it is a server error. The call succeeds
    -- exactly if there is no such error; only an unreadable answer is not worth another try, and only
    -- a rate-limited mock asks for a wait, of 5000 milliseconds, where whole numbers are calculated with exactly.
    pub fault_reported :
        IsWhole F
        → lower (or_mock info.provider_type) == text "mock" ≡ true
        → is_provider_force_failed info.name modes ≡ false
        → net.post_mock info.url req.messages req.max_tokens patience ≡ answer
        → let c = call_or_fail net settings modes latency_ms info req in
          let e = expected_error s unlucky latency patience in
          (c.error_kind ≡ e)
          × (c.ok ≡ is_none e)
          × (c.retryable ≡ is_retryable e)
          × (c.retry_after_ms ≡ (if is_rate_limited e then 5000 else 0))
    unfolding chat after_post http_failure
    fault_reported laws h k e = rw (posted answer h k e) (ground (arith, five_seconds laws))
