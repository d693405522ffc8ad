-- ===== src/Router/Client.antt =====
-- intelliroute/router/provider_clients.py, and `_call_provider` and `_error_backoff_ms` of
-- intelliroute/router/main.py. The HTTP client is a parameter; a body is what the code reads of the
-- JSON, and a header `retry-after` is the finite number that it holds, if any. The texts of error
-- messages are left out.
pub mod Call
pub mod Payload
pub mod Errors
mod Tests
use intelli_route_team.Common.{
  ℕ, Bool, true, false, not, ◌&&◌, Option, none, some, List, [], ◌∷◌, ◌++◌, map, Text, text_eq,
  ◌==◌, filter_by, if◌then◌else◌,
}
use intelli_route_team.Common.Strings.{text, strip, join, is_text}
use intelli_route_team.Router.Provider.{ChatMessage, CompletionRequest, ProviderInfo}
use intelli_route_team.Router.Completion.{ErrorKind, unknown}

pub record ProviderCallError : Type 0 where
  pub kind : ErrorKind
  pub status_code : Option ℕ
  pub retry_after_ms : ℕ
  pub retryable : Bool

-- `body` is `none` where `response.json()` raises.
pub record Response (F B : Type 0) : Type 0 where
  pub status_code : ℕ
  pub retry_after : Option F
  pub body : Option B

-- What `http.post` does: a TimeoutException, any other RequestError, or a response.
pub data HttpOutcome (F B : Type 0) : Type 0 where
  timed_out : HttpOutcome F B
  unreachable : HttpOutcome F B
  responded : Response F B → HttpOutcome F B

-- The dictionary that `call_provider` returns.
pub record ProviderReply : Type 0 where
  pub id : Text
  pub provider : Text
  pub model : Text
  pub content : Text
  pub prompt_tokens : ℕ
  pub completion_tokens : ℕ

-- A `content` of Groq's: a string, a list, or anything else.
pub data ContentItem : Type 0 where
  plain : Text → ContentItem
  with_text : Text → ContentItem
  other_item : ContentItem

pub data Content : Type 0 where
  one : Text → Content
  items : List ContentItem → Content
  no_content : Content

-- The content of the first choice comes first.
pub record GroqBody : Type 0 where
  pub id : Option Text
  pub model : Option Text
  pub choices : List Content
  pub prompt_tokens : Option ℕ
  pub completion_tokens : Option ℕ

-- Each candidate is the `text` of its parts, where that is a string.
pub record GeminiBody : Type 0 where
  pub response_id : Option Text
  pub model_version : Option Text
  pub candidates : List (List (Option Text))
  pub prompt_token_count : Option ℕ
  pub candidates_token_count : Option ℕ

pub record GeminiPayload (F : Type 0) : Type 0 where
  pub contents : List (Text × Text)
  pub temperature : F
  pub max_output_tokens : ℕ
  pub system_instruction : Option Text

pub record GroqPayload (F : Type 0) : Type 0 where
  pub model : Text
  pub messages : List ChatMessage
  pub temperature : F
  pub max_completion_tokens : ℕ
  pub user : Text

-- The three `http.post`s, each with its key or URL, its payload and its timeout.
pub record Network (F : Type 0) : Type 0 where
  pub post_mock : Text → List ChatMessage → ℕ → F → HttpOutcome F ProviderReply
  pub post_groq : Text → GroqPayload F → F → HttpOutcome F GroqBody
  pub post_gemini : Text → Text → GeminiPayload F → F → HttpOutcome F GeminiBody

pub record ClientSettings (F : Type 0) : Type 0 where
  pub groq_api_key : Text
  pub gemini_api_key : Text
  pub provider_timeout_s : F

-- `raised` is an exception other than ProviderCallError.
pub data ClientResult : Type 0 where
  returned : Bool → Option ProviderReply → ClientResult
  failed : ProviderCallError → ClientResult
  raised : ClientResult

-- `"\n".join(t for t in texts if t)`
abbrev join_lines : List Text → Text
join_lines texts = join (text "\n") (filter_by is_text texts)

abbrev item_texts : List ContentItem → List Text
item_texts [] = []
item_texts (plain t ∷ r) = t ∷ item_texts r
item_texts (with_text t ∷ r) = t ∷ item_texts r
item_texts (other_item ∷ r) = item_texts r

-- `_message_text_content`
pub message_text_content : Content → Text
message_text_content (one t) = t
message_text_content (items l) = join_lines (item_texts l)
message_text_content no_content = []

abbrev first_content : List Content → Text
first_content [] = []
first_content (c ∷ cs) = strip (message_text_content c)

-- `_extract_groq_text`
pub extract_groq_text : GroqBody → Text
unfolding message_text_content
extract_groq_text body = first_content body.choices

abbrev part_texts : List (Option Text) → List Text
part_texts [] = []
part_texts (none ∷ r) = part_texts r
part_texts (some t ∷ r) = t ∷ part_texts r

abbrev first_candidate : List (List (Option Text)) → Text
first_candidate [] = []
first_candidate (parts ∷ r) = strip (join_lines (part_texts parts))

-- `_extract_gemini_text`
pub extract_gemini_text : GeminiBody → Text
extract_gemini_text body = first_candidate body.candidates

-- `m.role == "system"`
abbrev pub is_system : ChatMessage → Bool
is_system m = m.role == text "system"

-- `"model" if message.role == "assistant" else "user"`
abbrev pub gemini_role : ChatMessage → Text
gemini_role m = if m.role == text "assistant" then text "model" else text "user"

abbrev pub system_texts : List ChatMessage → List Text
system_texts messages =
    map (λ m. m.content) (filter_by (λ m. is_system m && is_text m.content) messages)

-- `if not contents: contents = […]`
abbrev or_blank : List (Text × Text) → List (Text × Text)
or_blank [] = (text "user", []) ∷ []
or_blank (c ∷ cs) = c ∷ cs

abbrev instruction_of : List Text → Option Text
instruction_of [] = none
instruction_of (t ∷ ts) = some (join (text "\n\n") (t ∷ ts))

abbrev pub turns : List ChatMessage → List (Text × Text)
turns messages = map (λ m. (gemini_role m, m.content)) (filter_by (λ m. not (is_system m)) messages)

abbrev or_default : Text → Option Text → Text
or_default d none = d
or_default d (some t) = t

abbrev or_zero : Option ℕ → ℕ
or_zero none = 0
or_zero (some n) = n

-- `info.provider_type or "mock"`
abbrev pub or_mock : Text → Text
or_mock [] = text "mock"
or_mock (c ∷ t) = c ∷ t

module _ {F : Type 0} where
  -- `_gemini_payload`
  unfoldable pub gemini_payload : CompletionRequest F → GeminiPayload F
  gemini_payload req = record {
    contents = or_blank (turns req.messages);
    temperature = req.temperature;
    max_output_tokens = req.max_tokens;
    system_instruction = instruction_of (system_texts req.messages);
  }

  -- `_groq_payload`
  pub groq_payload : ProviderInfo F → CompletionRequest F → GroqPayload F
  groq_payload info req = record {
    model = info.model;
    messages = req.messages;
    temperature = req.temperature;
    max_completion_tokens = req.max_tokens;
    user = req.tenant_id;
  }

  pub groq_reply : ProviderInfo F → GroqBody → ClientResult
  unfolding extract_groq_text
  groq_reply info body =
      let content = extract_groq_text body in
      if is_text content
      then returned true (
          some (record {
            id = or_default [] body.id;
            provider = info.name;
            model = or_default info.model body.model;
            content = content;
            prompt_tokens = or_zero body.prompt_tokens;
            completion_tokens = or_zero body.completion_tokens;
          }))
      else returned false none

  pub gemini_reply : ProviderInfo F → GeminiBody → ClientResult
  unfolding extract_gemini_text
  gemini_reply info body =
      let content = extract_gemini_text body in
      if is_text content
      then returned true (
          some (record {
            id = or_default [] body.response_id;
            provider = info.name;
            model = or_default info.model body.model_version;
            content = content;
            prompt_tokens = or_zero body.prompt_token_count;
            completion_tokens = or_zero body.candidates_token_count;
          }))
      else returned false none

-- `ProviderCallError(message)`
abbrev pub plain_error : ProviderCallError
plain_error = record { kind = unknown; status_code = none; retry_after_ms = 0; retryable = false }

abbrev pub transport : ErrorKind → ProviderCallError
transport kind = record { kind = kind; status_code = none; retry_after_ms = 0; retryable = true }
