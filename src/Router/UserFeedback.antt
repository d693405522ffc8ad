-- ===== src/Router/UserFeedback.antt =====
-- `UserFeedbackStore` of intelliroute/router/user_feedback_store.py. Its two SQLite tables are
-- dictionaries over their unique key (request_id, tenant_id): an upsert is an insertion. The row that
-- SQLite gives of several with one request id is chosen by a parameter. The clock's readings are
-- arguments.
pub mod Submit
pub mod Views
pub mod Summary
pub mod Sample
mod Tests
use intelli_route_team.Common.{
  ℕ, ◌+◌, Bool, true, false, not, ◌&&◌, Option, none, some, List, [], ◌∷◌, ◌++◌, map, max, min,
  Text, text_eq, nat_eq, pair_eq, ◌==◌, ltb, leb, length, take, filter_by, count_by, foldl_by,
  if◌then◌else◌,
}
use intelli_route_team.Common.Dict.{Dict, lookup, insert}
use intelli_route_team.Common.Float.{Float, nought, of_ℕ, flt}
use intelli_route_team.Common.Sort.{sort_by}
use intelli_route_team.Common.Strings.{text, strip}

pub record CompletionMeta (F : Type 0) : Type 0 where
  pub request_id : Text
  pub tenant_id : Text
  pub provider : Text
  pub model : Text
  pub intent : Text
  pub prompt_tokens : ℕ
  pub completion_tokens : ℕ
  pub total_tokens : ℕ
  pub latency_ms : F
  pub unix_ts : F
  pub prompt_preview : Text
  pub response_preview : Text

-- A row of `user_feedback`, as `_row_to_dict` gives it.
pub record FeedbackRow (F : Type 0) : Type 0 where
  pub request_id : Text
  pub tenant_id : Text
  pub provider : Text
  pub model : Text
  pub intent : Text
  pub rating : Text
  pub comment : Text
  pub prompt_tokens : ℕ
  pub completion_tokens : ℕ
  pub total_tokens : ℕ
  pub latency_ms : F
  pub unix_ts : F
  pub updated_ts : F
  pub prompt_preview : Text
  pub response_preview : Text

-- A cached analysis.
pub record Analysis (F : Type 0) : Type 0 where
  pub tenant_id : Text
  pub analysis : Text
  pub provider : Text
  pub model : Text
  pub generated_at_unix : F
  pub analysis_sample_limit : ℕ
  pub analysis_revision : Text

-- The key of a cached analysis: tenant, sample limit and revision.
abbrev pub AnalysisKey : Type 0
AnalysisKey = Text × (ℕ × Text)

pub record UserFeedbackStore (F : Type 0) : Type 0 where
  pub completions : Dict Text (CompletionMeta F)
  pub completion_table : Dict (Text × Text) (CompletionMeta F)
  pub feedback_table : Dict (Text × Text) (FeedbackRow F)
  pub analysis_cache : Dict AnalysisKey (Analysis F)

-- What `submit_feedback` returns or raises.
pub data Submission (F : Type 0) : Type 0 where
  accepted : FeedbackRow F → Submission F
  request_id_not_found : Submission F
  tenant_mismatch_for_request_id : Submission F

module _ {F : Type 0} where
  -- A store over empty tables, and one that finds tables of an earlier process.
  abbrev pub new_store : UserFeedbackStore F
  new_store = record {
    completions = [];
    completion_table = [];
    feedback_table = [];
    analysis_cache = [];
  }

  unfoldable pub reopen : UserFeedbackStore F → UserFeedbackStore F
  reopen s = record s { completions = []; analysis_cache = [] }

  unfoldable pub reset : UserFeedbackStore F → UserFeedbackStore F
  reset s = record {
    completions = [];
    completion_table = [];
    feedback_table = [];
    analysis_cache = [];
  }

  unfoldable pub record_completion : CompletionMeta F → UserFeedbackStore F → UserFeedbackStore F
  record_completion meta s = record s {
    completions = insert meta.request_id meta s.completions;
    completion_table = insert (meta.request_id, meta.tenant_id) meta s.completion_table;
  }

  -- The rows of the completion table with the request id.
  abbrev pub rows_of : Text → UserFeedbackStore F → List (CompletionMeta F)
  rows_of request_id s = map (λ e. e.1) (filter_by (λ e. e.0.0 == request_id) s.completion_table)

  abbrev without_tenant : Text → Dict AnalysisKey (Analysis F) → Dict AnalysisKey (Analysis F)
  without_tenant tenant_id = filter_by (λ e. not (e.0.0 == tenant_id))

  unfoldable pub invalidate_analysis_cache_for_tenant :
      Text → UserFeedbackStore F → UserFeedbackStore F
  invalidate_analysis_cache_for_tenant tenant_id s = record s {
    analysis_cache = without_tenant tenant_id s.analysis_cache;
  }

  -- `unix_ts` of the row that stands there, or the new one.
  abbrev first_ts : Option (FeedbackRow F) → F → F
  first_ts none now = now
  first_ts (some row) now = row.unix_ts

  -- The row after the upsert.
  unfoldable pub upserted :
      CompletionMeta F → Text → Text → F → Option (FeedbackRow F) → FeedbackRow F
  upserted meta rating comment now old = record {
    request_id = meta.request_id;
    tenant_id = meta.tenant_id;
    provider = meta.provider;
    model = meta.model;
    intent = meta.intent;
    rating = rating;
    comment = strip comment;
    prompt_tokens = meta.prompt_tokens;
    completion_tokens = meta.completion_tokens;
    total_tokens = meta.total_tokens;
    latency_ms = meta.latency_ms;
    unix_ts = first_ts old now;
    updated_ts = now;
    prompt_preview = meta.prompt_preview;
    response_preview = meta.response_preview;
  }

  abbrev store_row : FeedbackRow F → UserFeedbackStore F → UserFeedbackStore F
  store_row row s = record s {
    feedback_table = insert (row.request_id, row.tenant_id) row s.feedback_table;
  }

  abbrev pub or_stored :
      Option (CompletionMeta F) → Option (CompletionMeta F) → Option (CompletionMeta F)
  or_stored none stored = stored
  or_stored (some meta) stored = some meta

  -- `submit_feedback` once the completion is looked up.
  unfoldable pub submit_for :
      Option (CompletionMeta F)
      → Text
      → Text
      → Text
      → F
      → UserFeedbackStore F
      → UserFeedbackStore F × Submission F
  submit_for none tenant_id rating comment now s = (s, request_id_not_found)
  submit_for (some meta) tenant_id rating comment now s =
      let old = lookup (meta.request_id, meta.tenant_id) s.feedback_table in
      let row = upserted meta rating comment now old in
      if not (meta.tenant_id == tenant_id)
      then (s, tenant_mismatch_for_request_id)
      else (invalidate_analysis_cache_for_tenant tenant_id (store_row row s), accepted row)

  module _ (choose : List (CompletionMeta F) → Option (CompletionMeta F)) where
    -- The completion in memory, or else one of the table.
    unfoldable pub meta_for_request : Text → UserFeedbackStore F → Option (CompletionMeta F)
    meta_for_request request_id s =
        or_stored (lookup request_id s.completions) (choose (rows_of request_id s))

    unfoldable pub submit_feedback :
        Text → Text → Text → Text → F → UserFeedbackStore F → UserFeedbackStore F × Submission F
    submit_feedback tenant_id request_id rating comment now s =
        submit_for (meta_for_request request_id s) tenant_id rating comment now s

  abbrev pub rows_for : Text → UserFeedbackStore F → List (FeedbackRow F)
  rows_for tenant_id s = filter_by (λ r. r.tenant_id == tenant_id) (map (λ e. e.1) s.feedback_table)

  unfoldable pub get_cached_analysis : Text → ℕ → Text → UserFeedbackStore F → Option (Analysis F)
  get_cached_analysis tenant_id sample_limit revision s =
      lookup (tenant_id, (sample_limit, revision)) s.analysis_cache

  unfoldable pub put_cached_analysis :
      Text
      → ℕ
      → Text
      → Text
      → Text
      → Text
      → F
      → UserFeedbackStore F
      → UserFeedbackStore F × Analysis F
  put_cached_analysis tenant_id sample_limit revision analysis provider model now s =
      let row : Analysis F = record {
        tenant_id = tenant_id;
        analysis = analysis;
        provider = provider;
        model = model;
        generated_at_unix = now;
        analysis_sample_limit = sample_limit;
        analysis_revision = revision;
      } in
      (
        record s {
          analysis_cache = insert (tenant_id, (sample_limit, revision)) row s.analysis_cache;
        },
        row,
      )
