-- ===== src/Router/UserFeedback/Sample.antt =====
-- The sample for an analysis.
use intelli_route_team.Common.{
  ℕ, zero, suc, ◌≡◌, ◌≤◌, ◌∙◌, sym, ap, refl, inl, inr, true, false, List, [], ◌∷◌, ◌++◌, arith,
  leb, length, length-append, take, Bool-cases,
}
use mathlib.Core.List.{append-nil, append_assoc}
use intelli_route_team.Router.UserFeedback.{FeedbackRow}
use intelli_route_team.Router.UserFeedback.Views.{fill, stratum, stratified_feedback_sample}

module _ {ℓ} {A : Type ℓ} where
  take-all : (n : ℕ) (xs : List A) → length xs ≤ n → take n xs ≡ xs
  take-all zero [] h = refl
  take-all (suc n) [] h = refl
  take-all zero (x ∷ xs) h = absurd (omega arith)
  take-all (suc n) (x ∷ xs) h = ap (λ ys. x ∷ ys) (take-all n xs (omega arith))

  take-append_full : (xs ys : List A) → take (length xs) (xs ++ ys) ≡ xs
  take-append_full [] ys = refl
  take-append_full (x ∷ xs) ys = ap (λ zs. x ∷ zs) (take-append_full xs ys)

  take-take-append : (n : ℕ) (xs ys : List A) → take n (take n xs ++ ys) ≡ take n (xs ++ ys)
  take-take-append zero xs ys = refl
  take-take-append (suc n) [] ys = refl
  take-take-append (suc n) (x ∷ xs) ys = ap (λ zs. x ∷ zs) (take-take-append n xs ys)

  length-take : (n : ℕ) (xs : List A) → length (take n xs) ≤ n
  length-take zero xs = omega arith
  length-take (suc n) [] = omega arith
  length-take (suc n) (x ∷ xs) = omega (arith, length-take n xs)

module _ {F : Type 0} where
  fill_lem :
      (cap : ℕ) (pool out : List (FeedbackRow F))
      → length out ≤ cap
      → fill cap pool out ≡ take cap (out ++ pool)
  fill_lem cap [] out h = rw (append-nil out) (sym (take-all cap out h))
  fill_lem cap (r ∷ pool) out h = elim (Bool-cases (leb cap (length out))) [
    | inl full ↦
        let e : cap ≡ length out = ground (arith, full, h) in
        rw (full, e) (sym (take-append_full out (r ∷ pool)))
    | inr room ↦ rw room (
        fill_lem cap pool (out ++ (r ∷ [])) (ground (arith, room, length-append out (r ∷ [])))
        ∙ ap (take cap) (append_assoc out (r ∷ []) pool))
  ]

  fill-take :
      (cap : ℕ) (pool xs : List (FeedbackRow F))
      → fill cap pool (take cap xs) ≡ take cap (xs ++ pool)
  fill-take cap pool xs =
      fill_lem cap pool (take cap xs) (length-take cap xs) ∙ take-take-append cap xs pool

  -- The sample of at most `cap` rows is the beginning of the negative rows with a comment, the other
  -- negative rows, the positive rows with a comment and the other positive rows, in this order.
  pub stratified_feedback_sample_lem :
      (rows : List (FeedbackRow F)) (cap : ℕ)
      → stratified_feedback_sample rows cap
        ≡ take cap (
            ((stratum false true rows ++ stratum false false rows) ++ stratum true true rows)
            ++ stratum true false rows)
  unfolding stratified_feedback_sample
  stratified_feedback_sample_lem rows cap =
      let a = stratum false true rows in
      let b = stratum false false rows in
      let c = stratum true true rows in
      let d = stratum true false rows in
      ap (λ x. fill cap d (fill cap c (fill cap b x))) (fill_lem cap a [] (omega arith))
      ∙ ap (λ x. fill cap d (fill cap c x)) (fill-take cap b a)
      ∙ ap (fill cap d) (fill-take cap c (a ++ b))
      ∙ fill-take cap d ((a ++ b) ++ c)
