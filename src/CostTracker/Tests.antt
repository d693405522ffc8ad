-- ===== src/CostTracker/Tests.antt =====
-- The theorems about the cost tracker at concrete inputs.
use intelli_route_team.Common.{[]}
use intelli_route_team.Common.Strings.{text}
use intelli_route_team.Common.Float.{nat_float}
use intelli_route_team.CostTracker.Example.{calls}
use intelli_route_team.CostTracker.Accounting.{new_accountant, perform_all, journal}
use intelli_route_team.Common.Float.{int_float}
use intelli_route_team.CostTracker.Accounting.Rollups.{IsTally, rollups_are_sums}

rollups_are_sums_example :
    IsTally (text "acme") (journal [] calls) (perform_all calls (new_accountant [] 2))
rollups_are_sums_example = rollups_are_sums (text "acme") calls [] 2
