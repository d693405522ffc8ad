-- ===== src/Router/Dispatch/Tests.antt =====
-- A request that meets one provider, whose circuit is open, in thousandths.
use intelli_route_team.Common.{◌≡◌, ◌↔◌, []}
use intelli_route_team.Common.Unit.{milli}
use intelli_route_team.Router.Registry.{all_active}
use intelli_route_team.Router.Dispatch.{no_providers_registered, begin_completion}
use intelli_route_team.Router.Dispatch.Refusals.{no_providers_iff}
use intelli_route_team.Router.Dispatch.Example.{request, config, answers, router}

no_providers_iff_example :
    ((begin_completion ⦃fl = milli⦄ config answers request router).1 ≡ no_providers_registered)
    ↔ (all_active ⦃fl = milli⦄ 1000 router.registry ≡ [])
no_providers_iff_example = no_providers_iff ⦃fl = milli⦄ config answers request router
