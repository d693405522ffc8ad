-- ===== src/Router/UserFeedback/Summary.antt =====
-- The groups of the summary count the rows.
use intelli_route_team.Common.{
  ◌+◌, ◌≡◌, ◌∙◌, ap, refl, Bool, not, ◌&&◌, List, [], ◌∷◌, arith, Text, text_eq, text_beq_iff, ◌==◌,
  count_by, foldl_by, if◌then◌else◌,
}
use intelli_route_team.Common.Dict.{Dict, lookup, lookup-insert}
use intelli_route_team.Router.UserFeedback.{FeedbackRow, UserFeedbackStore, rows_for}
use intelli_route_team.Router.UserFeedback.Views.{
  Tally, or_no_rows, counted, is_positive, bump, group_by, summary,
}

-- The tally of a group.
abbrev pub tally_of : Text → Dict Text Tally → Tally
tally_of k bucket = or_no_rows (lookup k bucket)

abbrev add_tally : Tally → Tally → Tally
add_tally t u = record {
  total = t.total + u.total;
  positive = t.positive + u.positive;
  negative = t.negative + u.negative;
}

module _ {F : Type 0} where
  abbrev pub in_group : (FeedbackRow F → Text) → Text → FeedbackRow F → Bool
  in_group key k r = key r == k

  tally_of-bump :
      (key : FeedbackRow F → Text) (k : Text) (r : FeedbackRow F) (bucket : Dict Text Tally)
      → tally_of k (bump (key r) r bucket) ≡ (
          if in_group key k r
          then counted (is_positive r) (tally_of k bucket)
          else tally_of k bucket)
  unfolding bump
  tally_of-bump key k r bucket = ground (
    arith,
    lookup-insert (key r) k (counted (is_positive r) (tally_of (key r) bucket)) bucket,
    text_beq_iff (key r) k,
  )

  -- The rows of a group: all, the positive ones and the rest.
  abbrev pub rows_in_group : (FeedbackRow F → Bool) → List (FeedbackRow F) → Tally
  rows_in_group mine rows = record {
    total = count_by mine rows;
    positive = count_by (λ r. mine r && is_positive r) rows;
    negative = count_by (λ r. mine r && not (is_positive r)) rows;
  }

  add_tally-next :
      (mine : Bool) (r : FeedbackRow F) (t : Tally) (test : FeedbackRow F → Bool)
      (rows : List (FeedbackRow F))
      → test r ≡ mine
      → add_tally (if mine then counted (is_positive r) t else t) (rows_in_group test rows)
        ≡ add_tally t (rows_in_group test (r ∷ rows))
  add_tally-next mine r t test rows h = ground (arith, h)

  fold-tally :
      (key : FeedbackRow F → Text) (k : Text) (rows : List (FeedbackRow F))
      (bucket : Dict Text Tally)
      → tally_of k (foldl_by (λ b r. bump (key r) r b) bucket rows)
        ≡ add_tally (tally_of k bucket) (rows_in_group (in_group key k) rows)
  fold-tally key k [] bucket = ground arith
  fold-tally key k (r ∷ rows) bucket =
      fold-tally key k rows (bump (key r) r bucket)
      ∙ ap (λ t. add_tally t (rows_in_group (in_group key k) rows)) (tally_of-bump key k r bucket)
      ∙ add_tally-next (in_group key k r) r (tally_of k bucket) (in_group key k) rows refl

  group_by_lem :
      (key : FeedbackRow F → Text) (k : Text) (rows : List (FeedbackRow F))
      → tally_of k (group_by key rows) ≡ rows_in_group (in_group key k) rows
  unfolding group_by
  group_by_lem key k rows = fold-tally key k rows [] ∙ ground arith

  -- In the summary of a tenant, the group of a provider, of a model and of an intent each count the
  -- tenant's rows that have it: all of them, the positive ones, and the rest as negative ones.
  pub summary-counts :
      (tenant_id k : Text) (s : UserFeedbackStore F)
      → let rows = rows_for tenant_id s in
        let view = summary tenant_id s in
        (tally_of k view.by_provider ≡ rows_in_group (λ r. r.provider == k) rows)
        × ((tally_of k view.by_model ≡ rows_in_group (λ r. r.model == k) rows)
            × (tally_of k view.by_intent ≡ rows_in_group (λ r. r.intent == k) rows))
  unfolding summary
  summary-counts tenant_id k s =
      let rows = rows_for tenant_id s in
      (
        group_by_lem (λ r. r.provider) k rows,
        (group_by_lem (λ r. r.model) k rows, group_by_lem (λ r. r.intent) k rows),
      )
