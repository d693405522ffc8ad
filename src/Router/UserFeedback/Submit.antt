-- ===== src/Router/UserFeedback/Submit.antt =====
-- Submissions: when they are accepted, and what stands in the table after them.
use intelli_route_team.Common.{
  ◌≡◌, ◌⊎◌, ◌∙◌, ap, refl, inl, inr, Bool, true, false, Option, none, some, List, [], ◌∷◌, arith,
  Text, text_eq, pair_eq, text_beq_iff, ◌==◌, beq_refl, if◌then◌else◌, Bool-cases, Option-cases,
  map, filter_by,
}
use intelli_route_team.Common.Dict.{Dict, lookup, insert, lookup-insert}
use intelli_route_team.Router.UserFeedback.{
  CompletionMeta, FeedbackRow, UserFeedbackStore, Submission, accepted, request_id_not_found,
  tenant_mismatch_for_request_id, new_store, record_completion, rows_of, meta_for_request, upserted,
  invalidate_analysis_cache_for_tenant, submit_for, submit_feedback,
}

module _ {F : Type 0} where
  -- The completions of a run, one after another.
  abbrev pub record_all : List (CompletionMeta F) → UserFeedbackStore F → UserFeedbackStore F
  record_all [] s = s
  record_all (m ∷ ms) s = record_all ms (record_completion m s)

  abbrev last_or : Option (CompletionMeta F) → Option (CompletionMeta F) → Option (CompletionMeta F)
  last_or none o = o
  last_or (some m) o = some m

  -- The latest of them with the request id.
  abbrev pub latest : Text → List (CompletionMeta F) → Option (CompletionMeta F)
  latest k [] = none
  latest k (m ∷ ms) = last_or (latest k ms) (if m.request_id == k then some m else none)

  last_or_assoc :
      (o : Option (CompletionMeta F)) (b : Bool) (m : CompletionMeta F)
      (p : Option (CompletionMeta F))
      → last_or o (if b then some m else p) ≡ last_or (last_or o (if b then some m else none)) p
  last_or_assoc none true m p = refl
  last_or_assoc none false m p = refl
  last_or_assoc (some l) b m p = refl

  lookup-record_all :
      (k : Text) (ms : List (CompletionMeta F)) (s : UserFeedbackStore F)
      → lookup k (record_all ms s).completions ≡ last_or (latest k ms) (lookup k s.completions)
  unfolding record_completion
  lookup-record_all k [] s = refl
  lookup-record_all k (m ∷ ms) s =
      let s' = record_completion m s in
      let mine = if m.request_id == k then some m else none in
      lookup-record_all k ms s'
      ∙ ap (last_or (latest k ms)) (lookup-insert m.request_id k m s.completions)
      ∙ last_or_assoc (latest k ms) (m.request_id == k) m (lookup k s.completions)

  -- What a submission of the tenant for that completion has to give.
  abbrev pub verdict : Option (CompletionMeta F) → Text → Text → Text → F → Submission F
  verdict none tenant_id rating comment now = request_id_not_found
  verdict (some m) tenant_id rating comment now =
      if m.tenant_id == tenant_id
      then accepted (upserted m rating comment now none)
      else tenant_mismatch_for_request_id

  -- The table has no row of another request id than those recorded.
  rows_of-insert :
      (k : Text) (m : CompletionMeta F) (d : Dict (Text × Text) (CompletionMeta F))
      → (m.request_id == k) ≡ false
      → filter_by (λ e. e.0.0 == k) (insert (m.request_id, m.tenant_id) m d)
        ≡ filter_by (λ e. e.0.0 == k) d
  rows_of-insert k m [] h = ground (arith, h)
  rows_of-insert k m (((i, t), v) ∷ d) h =
      ground (arith, h, rows_of-insert k m d h, text_beq_iff i m.request_id)

  not_latest :
      (k : Text) (m : CompletionMeta F) (ms : List (CompletionMeta F))
      → latest k (m ∷ ms) ≡ none
      → (latest k ms ≡ none) × ((m.request_id == k) ≡ false)
  not_latest k m ms h = ground (arith, h)

  rows_of-record_all :
      (k : Text) (ms : List (CompletionMeta F)) (s : UserFeedbackStore F)
      → latest k ms ≡ none
      → rows_of k (record_all ms s) ≡ rows_of k s
  unfolding record_completion
  rows_of-record_all k [] s h = refl
  rows_of-record_all k (m ∷ ms) s h =
      let (later, other) = not_latest k m ms h in
      rows_of-record_all k ms (record_completion m s) later
      ∙ ap (map (λ e. e.1)) (rows_of-insert k m s.completion_table other)

  feedback-record_all :
      (ms : List (CompletionMeta F)) (s : UserFeedbackStore F)
      → (record_all ms s).feedback_table ≡ s.feedback_table
  unfolding record_completion
  feedback-record_all [] s = refl
  feedback-record_all (m ∷ ms) s = feedback-record_all ms (record_completion m s)

  module _ (choose : List (CompletionMeta F) → Option (CompletionMeta F))
      (choose_none : choose [] ≡ none) where
    in_memory :
        (k : Text) (m : CompletionMeta F) (s : UserFeedbackStore F)
        → lookup k s.completions ≡ some m
        → meta_for_request choose k s ≡ some m
    unfolding meta_for_request
    in_memory k m s h = rw h refl

    in_table :
        (k : Text) (s : UserFeedbackStore F)
        → lookup k s.completions ≡ none
        → rows_of k s ≡ []
        → meta_for_request choose k s ≡ none
    unfolding meta_for_request
    in_table k s h e = rw (h, e) choose_none

    meta-record_all :
        (k : Text) (ms : List (CompletionMeta F))
        → meta_for_request choose k (record_all ms new_store) ≡ latest k ms
    meta-record_all k ms = elim (Option-cases (latest k ms)) [
      | inl e ↦ rw e (
          in_table k (record_all ms new_store) (lookup-record_all k ms new_store ∙ rw e refl)
            (rows_of-record_all k ms new_store e))
      | inr (m, e) ↦
          rw e
            (in_memory k m (record_all ms new_store) (lookup-record_all k ms new_store ∙ rw e refl))
    ]

    -- After any completions recorded in a new store, a submission for a request id is refused as not
    -- found if none of them has the id and as a mismatch if the latest that has it is of another
    -- tenant; else it is accepted, with the data of that completion. A refusal leaves the store.
    pub submit_feedback-verdict :
        (ms : List (CompletionMeta F)) (tenant_id request_id rating comment : Text) (now : F)
        → let s = record_all ms new_store in
          let (after, answer) = submit_feedback choose tenant_id request_id rating comment now s in
          (answer ≡ verdict (latest request_id ms) tenant_id rating comment now)
          × ((after ≡ s) ⊎ ((row : FeedbackRow F) × (answer ≡ accepted row)))
    unfolding submit_feedback submit_for
    submit_feedback-verdict ms t k r c now = elim (Option-cases (latest k ms)) [
      | inl e ↦ rw (meta-record_all k ms, e) (refl, inl refl)
      | inr (m, e) ↦ elim (Bool-cases (m.tenant_id == t)) [
        | inl f ↦
            rw (meta-record_all k ms, e, f, feedback-record_all ms new_store) (refl, inr (_, refl))
        | inr f ↦ rw (meta-record_all k ms, e, f) (refl, inl refl)
      ]
    ]

  module _ (choose : List (CompletionMeta F) → Option (CompletionMeta F)) where
    -- The completion does not depend on the feedback.
    meta-store :
        (k : Text) (s t : UserFeedbackStore F)
        → t.completions ≡ s.completions
        → t.completion_table ≡ s.completion_table
        → meta_for_request choose k t ≡ meta_for_request choose k s
    unfolding meta_for_request
    meta-store k s t h e = rw (h, e) refl

    -- An accepted submission puts its row into the table, and keeps the completion.
    submit-accepted :
        (m : CompletionMeta F) (k rating comment : Text) (now : F) (s : UserFeedbackStore F)
        → meta_for_request choose k s ≡ some m
        → let after = (submit_feedback choose m.tenant_id k rating comment now s).0 in
          let key : Text × Text = (m.request_id, m.tenant_id) in
          (after.feedback_table
            ≡ insert key
                (upserted m rating comment now (lookup key s.feedback_table))
                s.feedback_table)
          × ((after.completions ≡ s.completions) × (after.completion_table ≡ s.completion_table))
    unfolding submit_feedback submit_for upserted invalidate_analysis_cache_for_tenant
    submit-accepted m k rating comment now s h = rw (h, beq_refl m.tenant_id) (refl, (refl, refl))

    -- A second submission for a completion replaces the rating and the comment of the first in the
    -- one row that its request id and tenant have, keeps the time of the first, and leaves the
    -- rows of all other keys as they were before both.
    pub resubmit_feedback :
        (m : CompletionMeta F) (k first second early late : Text) (t u : F)
        (s : UserFeedbackStore F) (other : Text × Text)
        → meta_for_request choose k s ≡ some m
        → let s1 = (submit_feedback choose m.tenant_id k first early t s).0 in
          let s2 = (submit_feedback choose m.tenant_id k second late u s1).0 in
          let key : Text × Text = (m.request_id, m.tenant_id) in
          lookup other s2.feedback_table ≡ (
            if key == other
            then some (
                upserted m second late u
                  (some (upserted m first early t (lookup key s.feedback_table))))
            else lookup other s.feedback_table)
    resubmit_feedback m k first second early late t u s other h =
        let s1 = (submit_feedback choose m.tenant_id k first early t s).0 in
        let key : Text × Text = (m.request_id, m.tenant_id) in
        let row = upserted m first early t (lookup key s.feedback_table) in
        let (table, (memory, disk)) = submit-accepted m k first early t s h in
        let again = submit-accepted m k second late u s1 (meta-store k s s1 memory disk ∙ h) in
        let next : FeedbackRow F = upserted m second late u (lookup key s1.feedback_table) in
        let old : lookup key s1.feedback_table ≡ some row =
          ap (lookup key) table
          ∙ lookup-insert key key row s.feedback_table
          ∙ rw (beq_refl key) refl in
        ap (lookup other) again.0
        ∙ lookup-insert key other next s1.feedback_table
        ∙ elim (Bool-cases (key == other)) [
          | inl e ↦ rw e (ap (λ o. some (upserted m second late u o)) old)
          | inr e ↦
              rw e
                (ap (lookup other) table ∙ lookup-insert key other row s.feedback_table ∙ rw e refl)
        ]
