-- ===== src/CostTracker/Service/Paging.antt =====
-- Paging through /history by the limit that was asked for.
use intelli_route_team.Common.{
  ℕ, zero, suc, ◌+◌, ◌-◌, ◌≤◌, ◌<◌, List, [], ◌∷◌, ◌++◌, Text, length, length-append, take, drop,
  length-drop, arith, some,
}
use intelli_route_team.Common.Float.{Float}
use intelli_route_team.CostTracker.Accounting.{CostEvent}
use intelli_route_team.CostTracker.Accounting.Queries.{events_of, event_history, total_event_count}
use intelli_route_team.CostTracker.Accounting.History.{count_matches}
use intelli_route_team.CostTracker.Service.{CostService, clamped, history_page}

length-take_le : {A : Type 0} (n : ℕ) (xs : List A) → length (take n xs) ≤ n
length-take_le zero xs = omega arith
length-take_le (suc n) [] = omega arith
length-take_le (suc n) (x ∷ xs) = omega (arith, length-take_le n xs)

length-take_le_length : {A : Type 0} (n : ℕ) (xs : List A) → length (take n xs) ≤ length xs
length-take_le_length zero xs = omega arith
length-take_le_length (suc n) [] = omega arith
length-take_le_length (suc n) (x ∷ xs) = omega (arith, length-take_le_length n xs)

clamped_le : (limit : ℕ) → clamped limit ≤ limit
clamped_le limit = ground arith

clamped_cap : (limit : ℕ) → clamped limit ≤ 500
clamped_cap limit = ground arith

module _ {F : Type 0} ⦃fl : Float F⦄ where
  -- `n` pages from an offset on, each `limit` after the last.
  abbrev pub read_pages : Text → ℕ → ℕ → ℕ → CostService F → List (CostEvent F)
  read_pages tenant limit zero offset s = []
  read_pages tenant limit (suc n) offset s =
      (history_page tenant limit offset s).events ++ read_pages tenant limit n (offset + limit) s

  length-page :
      (tenant : Text) (limit offset : ℕ) (s : CostService F)
      → length (history_page tenant limit offset s).events
        ≤ length (events_of (some tenant) s.accountant) - offset
  unfolding history_page event_history
  length-page tenant limit offset s = omega (
    arith,
    length-take_le_length (clamped limit) (drop offset (events_of (some tenant) s.accountant)),
    length-drop offset (events_of (some tenant) s.accountant),
  )

  length-page_cap :
      (tenant : Text) (limit offset : ℕ) (s : CostService F)
      → length (history_page tenant limit offset s).events ≤ clamped limit
  unfolding history_page event_history
  length-page_cap tenant limit offset s =
      length-take_le (clamped limit) (drop offset (events_of (some tenant) s.accountant))

  length-read_pages :
      (tenant : Text) (limit n offset : ℕ) (s : CostService F)
      → length (read_pages tenant limit n offset s)
        ≤ length (events_of (some tenant) s.accountant) - offset
  length-read_pages tenant limit zero offset s = omega arith
  length-read_pages tenant limit (suc n) offset s =
      let page = (history_page tenant limit offset s).events in
      let later = read_pages tenant limit n (offset + limit) s in
      omega (
        arith,
        length-append page later,
        length-page tenant limit offset s,
        length-page_cap tenant limit offset s,
        clamped_le limit,
        length-read_pages tenant limit n (offset + limit) s,
      )

  -- A client that asks for more than 500 events a page, and for each next page as many further on,
  -- never gets all the events of a tenant that has more than 500, however many pages it reads.
  pub wide_pages_miss :
      (tenant : Text) (limit n : ℕ) (s : CostService F)
      → 500 < limit
      → 500 < total_event_count (some tenant) s.accountant
      → length (read_pages tenant limit n 0 s) < total_event_count (some tenant) s.accountant
  wide_pages_miss tenant limit zero s h k = omega arith
  wide_pages_miss tenant limit (suc n) s h k =
      let page = (history_page tenant limit 0 s).events in
      let later = read_pages tenant limit n (0 + limit) s in
      omega (
        arith,
        length-append page later,
        length-page_cap tenant limit 0 s,
        clamped_cap limit,
        count_matches (some tenant) s.accountant,
        length-read_pages tenant limit n (0 + limit) s,
      )
