-- ===== src/Router/UserFeedback/Views.antt =====
-- What `UserFeedbackStore` of intelliroute/router/user_feedback_store.py shows: the summary, the
-- recent rows and the sample for an analysis.
use intelli_route_team.Common.{
  ℕ, ◌+◌, Bool, true, false, not, ◌&&◌, Option, none, some, List, [], ◌∷◌, ◌++◌, map, max, min,
  Text, text_eq, nat_eq, pair_eq, ◌==◌, leb, length, take, filter_by, count_by, foldl_by,
  if◌then◌else◌,
}
use intelli_route_team.Common.Dict.{Dict, lookup, insert}
use intelli_route_team.Common.Float.{Float, flt}
use intelli_route_team.Common.Sort.{sort_by}
use intelli_route_team.Common.Strings.{text, strip}
use intelli_route_team.Router.UserFeedback.{FeedbackRow, UserFeedbackStore, rows_for}

-- The counts of a group in the summary; the rate is a quotient of them.
pub record Tally : Type 0 where
  pub total : ℕ
  pub positive : ℕ
  pub negative : ℕ

-- `_bump` of a group
abbrev no_rows : Tally
no_rows = record { total = 0; positive = 0; negative = 0 }

abbrev pub or_no_rows : Option Tally → Tally
or_no_rows none = no_rows
or_no_rows (some t) = t

abbrev pub counted : Bool → Tally → Tally
counted good t = record {
  total = t.total + 1;
  positive = if good then t.positive + 1 else t.positive;
  negative = if good then t.negative else t.negative + 1;
}

-- What `summary` returns of a tenant's rows, less the rates.
pub record FeedbackSummary : Type 0 where
  pub total_feedback : ℕ
  pub positive_count : ℕ
  pub negative_count : ℕ
  pub by_provider : Dict Text Tally
  pub by_model : Dict Text Tally
  pub by_intent : Dict Text Tally
  pub by_intent_provider : Dict Text (Dict Text Tally)
  pub top_negative_comments : List Text

abbrev or_no_groups : Option (Dict Text Tally) → Dict Text Tally
or_no_groups none = []
or_no_groups (some b) = b

module _ {F : Type 0} where
  abbrev pub is_positive : FeedbackRow F → Bool
  is_positive r = r.rating == text "positive"

  abbrev pub is_negative : FeedbackRow F → Bool
  is_negative r = r.rating == text "negative"

  unfoldable pub bump : Text → FeedbackRow F → Dict Text Tally → Dict Text Tally
  bump key r bucket = insert key (counted (is_positive r) (or_no_rows (lookup key bucket))) bucket

  -- The loop over the rows for one of the groupings.
  unfoldable pub group_by : (FeedbackRow F → Text) → List (FeedbackRow F) → Dict Text Tally
  unfolding bump
  group_by key rows = foldl_by (λ bucket r. bump (key r) r bucket) [] rows

  -- `_bump_intent_provider`
  abbrev bump_intent_provider :
      FeedbackRow F → Dict Text (Dict Text Tally) → Dict Text (Dict Text Tally)
  bump_intent_provider r groups =
      insert r.intent (bump r.provider r (or_no_groups (lookup r.intent groups))) groups

  unfoldable pub group_by_intent_provider : List (FeedbackRow F) → Dict Text (Dict Text Tally)
  group_by_intent_provider rows = foldl_by (λ groups r. bump_intent_provider r groups) [] rows

  -- The text of a comment is stripped, so it is empty or has more than white space.
  abbrev has_comment : FeedbackRow F → Bool
  has_comment r = elim (strip r.comment) [ [] ↦ false | c ∷ t ↦ true ]

  abbrev negative_comments : List (FeedbackRow F) → List Text
  negative_comments rows =
      map (λ r. strip r.comment) (filter_by (λ r. is_negative r && has_comment r) rows)

  unfoldable pub summary : Text → UserFeedbackStore F → FeedbackSummary
  summary tenant_id s =
      let rows = rows_for tenant_id s in
      record {
        total_feedback = length rows;
        positive_count = count_by is_positive rows;
        negative_count = count_by is_negative rows;
        by_provider = group_by (λ r. r.provider) rows;
        by_model = group_by (λ r. r.model) rows;
        by_intent = group_by (λ r. r.intent) rows;
        by_intent_provider = group_by_intent_provider rows;
        top_negative_comments = take 200 (negative_comments rows);
      }

  -- `_stratified_feedback_sample`: the loops over the four groups stop at `cap`.
  abbrev pub fill : ℕ → List (FeedbackRow F) → List (FeedbackRow F) → List (FeedbackRow F)
  fill cap [] out = out
  fill cap (r ∷ pool) out = if leb cap (length out) then out else fill cap pool (out ++ (r ∷ []))

  abbrev pub stratum : Bool → Bool → List (FeedbackRow F) → List (FeedbackRow F)
  stratum good commented rows =
      filter_by
        (λ r.
          (if good then is_positive r else is_negative r)
          && (if commented then has_comment r else not (has_comment r)))
        rows

  unfoldable pub stratified_feedback_sample : List (FeedbackRow F) → ℕ → List (FeedbackRow F)
  stratified_feedback_sample rows cap =
      let a = fill cap (stratum false true rows) [] in
      let b = fill cap (stratum false false rows) a in
      let c = fill cap (stratum true true rows) b in fill cap (stratum true false rows) c

module _ {F : Type 0} ⦃fl : Float F⦄ where
  -- `ORDER BY updated_ts DESC`; rows of one time stay in the table's order.
  abbrev newest_first : List (FeedbackRow F) → List (FeedbackRow F)
  newest_first = sort_by (λ a b. flt b.updated_ts a.updated_ts)

  unfoldable pub recent_feedback : Text → ℕ → UserFeedbackStore F → List (FeedbackRow F)
  recent_feedback tenant_id limit s = take (max 1 limit) (newest_first (rows_for tenant_id s))

  unfoldable pub analysis_sample_rows : Text → ℕ → ℕ → UserFeedbackStore F → List (FeedbackRow F)
  analysis_sample_rows tenant_id sample_limit pool_max s =
      let cap = max 1 sample_limit in
      let pool = max cap (min pool_max 50000) in
      stratified_feedback_sample (take pool (newest_first (rows_for tenant_id s))) cap
