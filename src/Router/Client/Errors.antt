-- ===== src/Router/Client/Errors.antt =====
-- What a call of a provider can end in.
use intelli_route_team.Common.{
  ℕ, ◌≡◌, Bool, true, false, not, Option, none, some, text_eq, ◌==◌, arith, leb, ltb, nat_beq,
  Bool-cases, inl, inr, refl, if◌then◌else◌, ◌&&◌, ◌||◌,
}
use intelli_route_team.Common.Float.{Float}
use intelli_route_team.Common.Strings.{text, is_text, lower}
use intelli_route_team.Router.Provider.{CompletionRequest, ProviderInfo}
use intelli_route_team.Router.Completion.{
  ErrorKind, rate_limited, timeout, transport_error, server_error, client_error, http_error,
  unknown,
}
use intelli_route_team.Router.Client.{
  HttpOutcome, timed_out, unreachable, responded, Network, ClientSettings, ClientResult, returned,
  failed, groq_reply, gemini_reply, extract_groq_text, extract_gemini_text, or_mock, Response,
  plain_error, GroqBody, GeminiBody,
}
use intelli_route_team.Router.Client.Call.{with_body, after_post, http_failure, call_provider}

-- The statuses that an error of each kind can have.
abbrev pub fits_kind : ErrorKind → Option ℕ → Bool
fits_kind rate_limited (some s) = nat_beq s 429
fits_kind server_error (some s) = leb 500 s && ltb s 600
fits_kind client_error (some s) = leb 400 s && ltb s 500
fits_kind http_error (some s) = ltb s 400 || leb 600 s
fits_kind timeout none = true
fits_kind transport_error none = true
fits_kind unknown none = true
fits_kind _ _ = false

-- Is another try worth while?
abbrev pub is_passing : ErrorKind → Bool
is_passing client_error = false
is_passing unknown = false
is_passing _ = true

-- What a client may rely on: an error has the kind of its status and says rightly whether to try
-- again, and a success of an external provider has a text and names the provider.
abbrev pub IsSound : {F : Type 0} → ProviderInfo F → Bool → ClientResult → Type 0
IsSound info external (failed e) =
    (fits_kind e.kind e.status_code ≡ true) × (e.retryable ≡ is_passing e.kind)
IsSound info true (returned true (some r)) = (is_text r.content ≡ true) × (r.provider ≡ info.name)
IsSound info external (returned true none) = ⊥
IsSound info external _ = Unit

module _ {F : Type 0} ⦃fl : Float F⦄ (info : ProviderInfo F) where
  http_failure_lem :
      (status : ℕ) (header : Option F)
      → let e = http_failure status header in
        (fits_kind e.kind e.status_code ≡ true) × (e.retryable ≡ is_passing e.kind)
  unfolding http_failure
  http_failure_lem status header = ground arith

  with_body-IsSound :
      {B : Type 0} (external : Bool) (o : Option B) (k : B → ClientResult)
      → ((b : B) → IsSound info external (k b))
      → IsSound info external (with_body o k)
  with_body-IsSound true none k h = tt
  with_body-IsSound false none k h = tt
  with_body-IsSound external (some b) k h = h b

  by_status :
      {B : Type 0} (external : Bool) (r : Response F B) (k : B → ClientResult) (ok : Bool)
      → ((b : B) → IsSound info external (k b))
      → IsSound info external
          (if ok then with_body r.body k else failed (http_failure r.status_code r.retry_after))
  by_status external r k true h = with_body-IsSound external r.body k h
  by_status external r k false h = http_failure_lem r.status_code r.retry_after

  after_post-IsSound :
      {B : Type 0} (external : Bool) (o : HttpOutcome F B) (k : B → ClientResult)
      → ((b : B) → IsSound info external (k b))
      → IsSound info external (after_post o k)
  unfolding after_post
  after_post-IsSound external timed_out k h = ground arith
  after_post-IsSound external unreachable k h = ground arith
  after_post-IsSound external (responded r) k h =
      by_status external r k (nat_beq r.status_code 200) h

  groq_reply-IsSound : (body : GroqBody) → IsSound info true (groq_reply info body)
  unfolding groq_reply
  groq_reply-IsSound body = elim (Bool-cases (is_text (extract_groq_text body))) [
    | inl e ↦ rw e (e, refl)
    | inr e ↦ rw e tt
  ]

  gemini_reply-IsSound : (body : GeminiBody) → IsSound info true (gemini_reply info body)
  unfolding gemini_reply
  gemini_reply-IsSound body = elim (Bool-cases (is_text (extract_gemini_text body))) [
    | inl e ↦ rw e (e, refl)
    | inr e ↦ rw e tt
  ]

  -- A provider that is no mock.
  abbrev pub is_external : Bool
  is_external = not (lower (or_mock info.provider_type) == text "mock")

  by_type :
      (mock groq gemini has_groq_key has_gemini_key : Bool) (x y z : ClientResult)
      → IsSound info false x
      → IsSound info true y
      → IsSound info true z
      → IsSound info (not mock) (
          if mock
          then x
          else if groq
          then (if has_groq_key then y else failed plain_error)
          else if gemini
          then (if has_gemini_key then z else failed plain_error)
          else failed plain_error)
  by_type true _ _ _ _ x y z hx hy hz = hx
  by_type false true _ true _ x y z hx hy hz = hy
  by_type false true _ false _ x y z hx hy hz = (refl, refl)
  by_type false false true _ true x y z hx hy hz = hz
  by_type false false true _ false x y z hx hy hz = (refl, refl)
  by_type false false false _ _ x y z hx hy hz = (refl, refl)

  -- Whatever the providers answer: an error has the kind that its status stands for, and says that
  -- the call may be tried again unless the client is at fault or the error is an unknown one; and a
  -- success of a provider that is no mock has a text that is not empty and names the provider.
  pub call_provider-IsSound :
      (net : Network F) (settings : ClientSettings F) (req : CompletionRequest F)
      (timeout_s : Option F)
      → IsSound info is_external (call_provider net settings info req timeout_s)
  unfolding call_provider
  call_provider-IsSound net settings req timeout_s =
      let t = lower (or_mock info.provider_type) in
      by_type (t == text "mock") (t == text "groq") (t == text "gemini")
        (is_text settings.groq_api_key) (is_text settings.gemini_api_key) _ _ _
        (after_post-IsSound false _ _ (λ b. tt)) (after_post-IsSound true _ _ groq_reply-IsSound)
        (after_post-IsSound true _ _ gemini_reply-IsSound)
