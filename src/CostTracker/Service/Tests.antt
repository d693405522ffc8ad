-- ===== src/CostTracker/Service/Tests.antt =====
-- The cost tracker's service at concrete calls and a full page.
use intelli_route_team.Common.{ℕ, zero, suc, ◌<◌, ◌≡◌, some, List, [], ◌∷◌, text_eq, length, arith}
use intelli_route_team.Common.Strings.{text}
use intelli_route_team.Common.Float.{nat_float}
use intelli_route_team.CostTracker.Accounting.{CostEvent, new_accountant, journal}
use intelli_route_team.CostTracker.Accounting.Queries.{total_event_count}
use intelli_route_team.CostTracker.Example.{cost_event, calls}
use intelli_route_team.CostTracker.Service.{CostService, new_service, serve_all, cost_stats}
use intelli_route_team.CostTracker.Service.Totals.{cost_stats-serve_all}
use intelli_route_team.CostTracker.Service.Paging.{read_pages, wide_pages_miss}

cost_stats-serve_all_example :
    let stats = cost_stats (serve_all calls (new_service [] 2)) in
    (stats.platform_total_requests ≡ 3) × (stats.total_events_received ≡ 4)
unfolding journal
cost_stats-serve_all_example = cost_stats-serve_all [] 2 calls

abbrev many : ℕ → List (CostEvent ℕ)
many zero = []
many (suc n) = cost_event "acme" "groq" 1 ∷ many n

abbrev busy : CostService ℕ
busy = record {
  accountant = record (new_accountant [] 5000) { event_log = many 501 };
  total_events = 501;
}

wide_pages_miss_example :
    length (read_pages (text "acme") 1000 3 0 busy)
    < total_event_count (some (text "acme")) busy.accountant
unfolding total_event_count
wide_pages_miss_example = wide_pages_miss (text "acme") 1000 3 busy (omega arith) (omega arith)
