-- ===== src/Router/Registry/Lease.antt =====
-- How long a registered provider is routed to.
use intelli_route_team.Common.{
  ◌+◌, ◌≡◌, Bool, true, false, not, none, some, [], ◌∷◌, map, arith, Text, text_eq, text_beq_iff,
  length, filter_by,
}
use intelli_route_team.Common.Dict.{Dict, lookup, insert, erase, lookup-insert}
use intelli_route_team.Common.Float.{Float}
use intelli_route_team.Router.Registry.{
  ProviderEntry, ProviderRegistry, ProviderRegisterRequest, request_id, api_entry, forget_id,
  register_api, heartbeat, get_entry, is_routable, all_active, stale_names,
}

module _ {F : Type 0} ⦃fl : Float F⦄ where
  open fl use {sub, fle}

  -- Is the provider of the name routed to?
  abbrev pub routed : Text → F → ProviderRegistry F → Bool
  routed name now r = elim (get_entry name r) [ none ↦ false | some e ↦ is_routable now e ]

  -- After a dynamic registration, a heartbeat by the id that the request gives (or by the
  -- provider's name, if it gives none) is accepted, and the provider is then routed to exactly
  -- while the time since that heartbeat is within the lease.
  pub heartbeat_renews_lease :
      (req : ProviderRegisterRequest F) (at t now : F) (r : ProviderRegistry F)
      → let (r', ok) = heartbeat (request_id req) t (register_api req at r) in
        (ok ≡ true) × (routed req.provider.name now r' ≡ fle (sub now t) req.lease_ttl_seconds)
  unfolding heartbeat register_api get_entry is_routable
  heartbeat_renews_lease req at t now r =
      let name = req.provider.name in
      let entry = api_entry req at in
      let rest = forget_id name (lookup name r.providers) r.id_to_name in
      let others = insert name entry (erase name r.providers) in
      ground (
        arith,
        lookup-insert (request_id req) (request_id req) name rest,
        lookup-insert name name entry (erase name r.providers),
        lookup-insert name name (record entry { last_heartbeat_at = some t }) others,
        text_beq_iff name name,
        text_beq_iff (request_id req) (request_id req),
      )

  count_rows :
      (now : F) (d : Dict Text (ProviderEntry F))
      → length (map (λ kv. kv.1.info) (filter_by (λ kv. is_routable now kv.1) d))
          + length (map (λ kv. kv.0) (filter_by (λ kv. not (is_routable now kv.1)) d))
        ≡ length d
  count_rows now [] = omega arith
  count_rows now (kv ∷ d) = ground (arith, count_rows now d)

  -- At any time the active and the stale providers together are as many as the registered ones.
  pub all_active-stale_names :
      (now : F) (r : ProviderRegistry F)
      → length (all_active now r) + length (stale_names now r) ≡ length r.providers
  unfolding all_active stale_names
  all_active-stale_names now r = count_rows now r.providers
