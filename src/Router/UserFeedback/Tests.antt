-- ===== src/Router/UserFeedback/Tests.antt =====
-- The store on concrete completions and rows.
use intelli_route_team.Common.{
  ℕ, ◌≡◌, ◌⊎◌, refl, Option, none, some, List, [], ◌∷◌, Text, text_eq, pair_eq, ◌==◌,
}
use intelli_route_team.Common.Strings.{text}
use intelli_route_team.Router.UserFeedback.{
  CompletionMeta, FeedbackRow, UserFeedbackStore, accepted, tenant_mismatch_for_request_id,
  new_store, upserted, submit_feedback, rows_for,
}
use intelli_route_team.Router.UserFeedback.Views.{summary, stratified_feedback_sample}
use intelli_route_team.Router.UserFeedback.Submit.{record_all, submit_feedback-verdict}
use intelli_route_team.Router.UserFeedback.Summary.{tally_of, rows_in_group, summary-counts}
use intelli_route_team.Router.UserFeedback.Sample.{stratified_feedback_sample_lem}

abbrev completion : Text → Text → CompletionMeta ℕ
completion id tenant = record {
  request_id = id;
  tenant_id = tenant;
  provider = text "gemini";
  model = text "pro";
  intent = text "code";
  prompt_tokens = 3;
  completion_tokens = 4;
  total_tokens = 7;
  latency_ms = 90;
  unix_ts = 5;
  prompt_preview = [];
  response_preview = [];
}

-- The first row of several.
abbrev head : List (CompletionMeta ℕ) → Option (CompletionMeta ℕ)
head [] = none
head (m ∷ ms) = some m

abbrev acme : Text
acme = text "acme"

abbrev done : CompletionMeta ℕ
done = completion (text "r1") acme

abbrev store : UserFeedbackStore ℕ
store = record_all (done ∷ []) new_store

submit_feedback-verdict_example :
    let (after, answer) =
      submit_feedback head (text "other") (text "r1") (text "positive") [] 9 store in
    (answer ≡ tenant_mismatch_for_request_id)
    × ((after ≡ store) ⊎ ((row : FeedbackRow ℕ) × (answer ≡ accepted row)))
submit_feedback-verdict_example =
    submit_feedback-verdict head refl (done ∷ []) (text "other") (text "r1") (text "positive") [] 9

abbrev row : FeedbackRow ℕ
row = upserted done (text "negative") (text "slow") 12 none

abbrev one_row : UserFeedbackStore ℕ
one_row = record new_store { feedback_table = ((text "r1", acme), row) ∷ [] }

summary-counts_example :
    let rows = rows_for acme one_row in
    let view = summary acme one_row in
    (tally_of (text "pro") view.by_provider ≡ rows_in_group (λ r. r.provider == text "pro") rows)
    × ((tally_of (text "pro") view.by_model ≡ rows_in_group (λ r. r.model == text "pro") rows)
        × (tally_of (text "pro") view.by_intent ≡ rows_in_group (λ r. r.intent == text "pro") rows))
summary-counts_example = summary-counts acme (text "pro") one_row

stratified_feedback_sample_lem_example : stratified_feedback_sample (row ∷ row ∷ []) 1 ≡ row ∷ []
unfolding upserted
stratified_feedback_sample_lem_example = stratified_feedback_sample_lem (row ∷ row ∷ []) 1
