-- ===== src/CostTracker/Accounting/History.antt =====
-- Paging through the events.
use intelli_route_team.Common.{
  ℕ, zero, suc, ◌+◌, ◌≤◌, ◌≡◌, refl, ap, ◌∙◌, Bool, Option, none, some, List, [], ◌∷◌, ◌++◌, arith,
  Text, text_eq, ◌==◌, length, take, drop, filter_by, count_by,
}
use intelli_route_team.Common.Float.{Float}
use intelli_route_team.CostTracker.Accounting.{CostEvent, CostAccountant}
use intelli_route_team.CostTracker.Accounting.Queries.{events_of, event_history, total_event_count}

drop-nil : {A : Type 0} (n : ℕ) → drop {A = A} n [] ≡ []
drop-nil zero = refl
drop-nil (suc n) = refl

take-drop : {A : Type 0} (n m : ℕ) (xs : List A) → take n (drop m xs) ++ drop (m + n) xs ≡ drop m xs
take-drop zero m xs = ground arith
take-drop (suc n) zero [] = ground arith
take-drop (suc n) zero (x ∷ xs) = ground (arith, take-drop n zero xs)
take-drop (suc n) (suc m) [] = drop-nil (suc m + suc n)
take-drop (suc n) (suc m) (x ∷ xs) =
    let next : suc m + suc n ≡ suc (m + suc n) = omega arith in rw next (take-drop (suc n) m xs)

drop_all : {A : Type 0} (n : ℕ) (xs : List A) → length xs ≤ n → drop n xs ≡ []
drop_all zero [] h = refl
drop_all zero (x ∷ xs) h = absurd (omega arith)
drop_all (suc n) [] h = refl
drop_all (suc n) (x ∷ xs) h = drop_all n xs (omega arith)

length-filter_by :
    {A : Type 0} (p : A → Bool) (xs : List A) → length (filter_by p xs) ≡ count_by p xs
length-filter_by p [] = refl
length-filter_by p (x ∷ xs) = ground (arith, length-filter_by p xs)

module _ {F : Type 0} ⦃fl : Float F⦄ where
  -- `n` pages of the history from an offset on, one after another.
  pub pages : Option Text → ℕ → ℕ → ℕ → CostAccountant F → List (CostEvent F)
  pages tenant limit zero offset a = []
  pages tenant limit (suc n) offset a =
      event_history tenant limit offset a ++ pages tenant limit n (offset + limit) a

  pages_from :
      (tenant : Option Text) (limit n offset : ℕ) (a : CostAccountant F)
      → 1 ≤ limit
      → length (events_of tenant a) ≤ offset + n
      → pages tenant limit n offset a ≡ drop offset (events_of tenant a)
  unfolding pages event_history
  pages_from tenant limit zero offset a h k = ground (arith, drop_all offset (events_of tenant a))
  pages_from tenant limit (suc n) offset a h k =
      ap (λ r. take limit (drop offset (events_of tenant a)) ++ r)
        (pages_from tenant limit n (offset + limit) a h (omega arith))
      ∙ take-drop limit offset (events_of tenant a)

  pub count_matches :
      (tenant : Option Text) (a : CostAccountant F)
      → total_event_count tenant a ≡ length (events_of tenant a)
  unfolding total_event_count
  count_matches none a = refl
  count_matches (some t) a = ground (arith, length-filter_by (λ e. e.tenant_id == t) a.event_log)

  -- As many pages as there are events to count, from the first on and with a limit of at least one,
  -- give together every event of the tenant in the log (of all tenants, if none is given), once and
  -- in order.
  pub pages_cover :
      (tenant : Option Text) (limit : ℕ) (a : CostAccountant F)
      → 1 ≤ limit
      → pages tenant limit (total_event_count tenant a) 0 a ≡ events_of tenant a
  pages_cover tenant limit a h =
      pages_from tenant limit (total_event_count tenant a) 0 a h
        (omega (arith, count_matches tenant a))
