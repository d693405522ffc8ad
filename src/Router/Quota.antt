-- ===== src/Router/Quota.antt =====
-- intelliroute/router/provider_daily_quota.py. The day is an argument: `_utc_day()`, or the
-- tracker's `day_fn`.
pub mod Ranked
use intelli_route_team.Common.{
  ℕ, ◌+◌, Bool, true, false, not, ◌&&◌, ◌||◌, Option, none, some, List, [], ◌∷◌, ◌++◌, map, Text,
  text_eq, pair_eq, ◌==◌, leb, ltb, filter_by, if◌then◌else◌,
}
use intelli_route_team.Common.Dict.{Dict, lookup, insert}
use intelli_route_team.Common.Float.{Float, nought, of_ℕ}
use intelli_route_team.Common.Strings.{text}
use intelli_route_team.Router.Provider.{ScoredProvider}

-- Counts by day and provider.
pub record DailyQuotaTracker : Type 0 where
  pub counts : Dict (Text × Text) ℕ

abbrev or_zero : Option ℕ → ℕ
or_zero none = 0
or_zero (some n) = n

unfoldable pub clear : DailyQuotaTracker → DailyQuotaTracker
clear t = record { counts = [] }

unfoldable pub usage : Text → Text → DailyQuotaTracker → ℕ
usage day provider t = or_zero (lookup (day, provider) t.counts)

unfoldable pub usage_snapshot_today : Text → DailyQuotaTracker → Dict Text ℕ
usage_snapshot_today day t = map (λ kv. (kv.0.1, kv.1)) (filter_by (λ kv. kv.0.0 == day) t.counts)

unfoldable pub record_successful_completion : Text → Text → DailyQuotaTracker → DailyQuotaTracker
unfolding usage
record_successful_completion day provider t = record {
  counts = insert (day, provider) (usage day provider t + 1) t.counts;
}

-- The settings of common/config.py that the quotas read.
pub record QuotaSettings (F : Type 0) : Type 0 where
  pub enable_provider_daily_quotas : Bool
  pub gemini : ℕ
  pub groq : ℕ
  pub mock_fast : ℕ
  pub mock_cheap : ℕ
  pub mock_smart : ℕ
  pub mock_fault : ℕ
  pub provider_quota_warn_ratio : F

abbrev limit_table : {F : Type 0} → QuotaSettings F → Dict Text ℕ
limit_table s =
    (text "gemini", s.gemini)
    ∷ (text "groq", s.groq)
    ∷ (text "mock-fast", s.mock_fast)
    ∷ (text "mock-cheap", s.mock_cheap)
    ∷ (text "mock-smart", s.mock_smart)
    ∷ (text "mock-fault", s.mock_fault)
    ∷ []

-- `if lim <= 0: return None`
abbrev positive : ℕ → Option ℕ
positive lim = if leb lim 0 then none else some lim

unfoldable pub daily_quota_limit : {F : Type 0} → Text → QuotaSettings F → Option ℕ
daily_quota_limit provider s =
    if s.enable_provider_daily_quotas
    then positive (or_zero (lookup provider (limit_table s)))
    else none

module _ {F : Type 0} ⦃fl : Float F⦄ where
  open fl use {mul, fle}

  unfoldable pub in_warn_zone : ℕ → ℕ → F → Bool
  in_warn_zone used limit warn_ratio =
      if leb limit 0 || fle warn_ratio nought
      then false
      else fle (mul (of_ℕ limit) warn_ratio) (of_ℕ used) && ltb used limit

  module _ (s : QuotaSettings F) (day : Text) (t : DailyQuotaTracker) where
    abbrev reached : Option ℕ → ℕ → Bool
    reached none used = false
    reached (some lim) used = leb lim used

    abbrev warned : Option ℕ → ℕ → Bool
    warned none used = false
    warned (some lim) used = in_warn_zone used lim s.provider_quota_warn_ratio

    -- At or over its limit.
    unfoldable pub is_blocked : ScoredProvider F → Bool
    is_blocked p = reached (daily_quota_limit p.provider.name s) (usage day p.provider.name t)

    unfoldable pub is_warned : ScoredProvider F → Bool
    is_warned p = warned (daily_quota_limit p.provider.name s) (usage day p.provider.name t)

    -- The two passes over the ranking.
    unfoldable pub quota_order : List (ScoredProvider F) → List (ScoredProvider F)
    quota_order ranked =
        let not_blocked = filter_by (λ p. not (is_blocked p)) ranked in
        filter_by (λ p. not (is_warned p)) not_blocked ++ filter_by is_warned not_blocked

    -- `apply_daily_quota_to_ranked`
    unfoldable pub apply_daily_quota : List (ScoredProvider F) → List (ScoredProvider F)
    apply_daily_quota ranked = if s.enable_provider_daily_quotas then quota_order ranked else ranked
