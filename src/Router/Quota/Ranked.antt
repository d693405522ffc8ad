-- ===== src/Router/Quota/Ranked.antt =====
-- What the daily quotas do to a ranking, and how usage is counted.
use intelli_route_team.Common.{
  ℕ, ◌+◌, ◌≡◌, refl, ap, ◌∙◌, Bool, true, false, not, ◌&&◌, ◌||◌, List, [], ◌∷◌, ◌++◌, arith, Text,
  text_eq, text_beq_iff, pair_eq, ◌==◌, All, filter_by, if◌then◌else◌,
}
use intelli_route_team.Common.Dict.{lookup-insert}
use intelli_route_team.Common.Float.{Float}
use intelli_route_team.Common.Sort.{sum_by, sum_by-append, sum_by-partition}
use intelli_route_team.Router.Provider.{ScoredProvider}
use intelli_route_team.Router.Quota.{
  DailyQuotaTracker, QuotaSettings, usage, record_successful_completion, is_blocked, is_warned,
  quota_order, apply_daily_quota,
}

-- A completion adds one to the usage of its provider on its day, and to no other.
pub usage-record_successful_completion :
    (day provider day' provider' : Text) (t : DailyQuotaTracker)
    → usage day' provider' (record_successful_completion day provider t) ≡ (
        if day == day' && provider == provider'
        then usage day' provider' t + 1
        else usage day' provider' t)
unfolding usage record_successful_completion
usage-record_successful_completion d p d' p' t = ground (
  arith,
  lookup-insert (d, p) (d', p') (usage d p t + 1) t.counts,
  text_beq_iff d d',
  text_beq_iff p p',
)

sum_by-swap :
    {A : Type 0} (f : A → ℕ) (w : A → Bool) (xs : List A)
    → sum_by f (filter_by (λ x. not (w x)) xs ++ filter_by w xs) ≡ sum_by f xs
sum_by-swap f w xs = omega (
  arith,
  sum_by-append f (filter_by (λ x. not (w x)) xs) (filter_by w xs),
  sum_by-partition f w xs,
)

-- Those before `ys` fail the test and those after pass it.
abbrev pub IsSplit : {A : Type 0} → (A → Bool) → List A → Type 0
IsSplit w [] = Unit
IsSplit w (x ∷ xs) = All (λ y. (not (w x) || w y) ≡ true) xs × IsSplit w xs

All-filter_by : {A : Type 0} (w : A → Bool) (xs : List A) → All (λ y. w y ≡ true) (filter_by w xs)
All-filter_by w [] = tt
All-filter_by w (x ∷ xs) = ground (arith, All-filter_by w xs)

All-or :
    {A : Type 0} (b : Bool) (w : A → Bool) (xs : List A)
    → All (λ y. w y ≡ true) xs
    → All (λ y. (not b || w y) ≡ true) xs
All-or b w [] h = tt
All-or b w (x ∷ xs) h = (ground (arith, h.0), All-or b w xs h.1)

All-unless :
    {A : Type 0} (b : Bool) (w : A → Bool) (xs : List A)
    → b ≡ false
    → All (λ y. (not b || w y) ≡ true) xs
All-unless b w [] h = tt
All-unless b w (x ∷ xs) h = (ground arith, All-unless b w xs h)

IsSplit-passed : {A : Type 0} (w : A → Bool) (xs : List A) → All (λ y. w y ≡ true) xs → IsSplit w xs
IsSplit-passed w [] h = tt
IsSplit-passed w (x ∷ xs) h = (All-or (w x) w xs h.1, IsSplit-passed w xs h.1)

IsSplit-append :
    {A : Type 0} (w : A → Bool) (xs ys : List A)
    → All (λ y. w y ≡ true) ys
    → IsSplit w (filter_by (λ x. not (w x)) xs ++ ys)
IsSplit-append w [] ys h = IsSplit-passed w ys h
IsSplit-append w (x ∷ xs) ys h =
    ground
      (arith, IsSplit-append w xs ys h, All-unless (w x) w (filter_by (λ x. not (w x)) xs ++ ys))

module _ {F : Type 0} ⦃fl : Float F⦄ (s : QuotaSettings F) (day : Text)
    (t : DailyQuotaTracker) where
  sum_by-not_blocked :
      (f : ScoredProvider F → ℕ) (xs : List (ScoredProvider F))
      → sum_by f (filter_by (λ p. not (is_blocked s day t p)) xs)
        ≡ sum_by (λ p. if is_blocked s day t p then 0 else f p) xs
  sum_by-not_blocked f [] = refl
  sum_by-not_blocked f (x ∷ xs) = ground (arith, sum_by-not_blocked f xs)

  quota_order_lem :
      (f : ScoredProvider F → ℕ) (ranked : List (ScoredProvider F))
      → let new = quota_order s day t ranked in
        (sum_by f new ≡ sum_by (λ p. if is_blocked s day t p then 0 else f p) ranked)
        × IsSplit (is_warned s day t) new
  unfolding quota_order
  quota_order_lem f ranked =
      let nb = filter_by (λ p. not (is_blocked s day t p)) ranked in
      (
        sum_by-swap f (is_warned s day t) nb ∙ sum_by-not_blocked f ranked,
        IsSplit-append (is_warned s day t) nb (filter_by (is_warned s day t) nb)
            (All-filter_by (is_warned s day t) nb),
      )

  enabled :
      (ranked : List (ScoredProvider F))
      → s.enable_provider_daily_quotas ≡ true
      → apply_daily_quota s day t ranked ≡ quota_order s day t ranked
  unfolding apply_daily_quota
  enabled ranked on = ap (λ b. if b then quota_order s day t ranked else ranked) on

  -- With quotas on, any sum `f` over the new ranking is the sum over the providers of the old one
  -- that are below their limits, and every provider in its warning zone comes after all that are
  -- not.
  pub apply_daily_quota_lem :
      (f : ScoredProvider F → ℕ) (ranked : List (ScoredProvider F))
      → s.enable_provider_daily_quotas ≡ true
      → let new = apply_daily_quota s day t ranked in
        (sum_by f new ≡ sum_by (λ p. if is_blocked s day t p then 0 else f p) ranked)
        × IsSplit (is_warned s day t) new
  apply_daily_quota_lem f ranked on = rw (enabled ranked on) (quota_order_lem f ranked)
