-- ===== src/Router/Registry/Index.antt =====
-- The index from ids to names agrees with the entries.
use intelli_route_team.Common.{
  ◌≡◌, Bool, true, false, Option, none, some, List, [], ◌∷◌, arith, Text, text_eq, text_beq_iff,
  ◌==◌, Option-cases, Bool-cases, inl, inr,
}
use intelli_route_team.Common.Dict.{lookup, insert, erase, is_some, lookup-insert, lookup-erase}
use intelli_route_team.Router.Registry.{
  ProviderEntry, ProviderRegistry, ProviderRegisterRequest, new_registry, request_id, api_entry,
  forget_id, register_api, resolve_id, heartbeat, deregister, Call, register, beat, remove, perform,
  discover,
}

-- The entry has the id.
abbrev pub has_id : {F : Type 0} → Text → Option (ProviderEntry F) → Bool
has_id id none = false
has_id id (some e) = e.provider_id == id

module _ {F : Type 0} where
  -- Every id of the index leads to an entry with that id.
  pub record IsIndexed (r : ProviderRegistry F) : Type 0 where
    pub agrees :
        (id name : Text)
        → lookup id r.id_to_name ≡ some name
        → has_id id (lookup name r.providers) ≡ true

  -- What is left of the index does not lead to the name.
  lookup-forget_id :
      (name id n : Text) (r : ProviderRegistry F)
      → IsIndexed r
      → lookup id (forget_id name (lookup name r.providers) r.id_to_name) ≡ some n
      → (lookup id r.id_to_name ≡ some n) × ((name == n) ≡ false)
  lookup-forget_id name id n r v h = elim (Option-cases (lookup name r.providers)) [
    | inl gone ↦ ground (arith, h, gone, v.agrees id n, text_beq_iff name n)
    | inr (e, here) ↦ ground (
      arith,
      h,
      here,
      v.agrees id n,
      lookup-erase e.provider_id id r.id_to_name,
      text_beq_iff name n,
      text_beq_iff e.provider_id id,
    )
  ]

  register_api-IsIndexed :
      (req : ProviderRegisterRequest F) (now : F) (r : ProviderRegistry F)
      → IsIndexed r
      → IsIndexed (register_api req now r)
  unfolding register_api
  register_api-IsIndexed req now r v = record {
    agrees = λ id n h.
        let name = req.provider.name in
        let rest = forget_id name (lookup name r.providers) r.id_to_name in
        ground (
          arith,
          h,
          v.agrees id n,
          lookup-forget_id name id n r v,
          lookup-insert (request_id req) id name rest,
          lookup-insert name n (api_entry req now) (erase name r.providers),
          lookup-erase name n r.providers,
          text_beq_iff (request_id req) id,
          text_beq_iff name n,
        );
  }

  deregister-IsIndexed :
      (name : Text) (r : ProviderRegistry F) → IsIndexed r → IsIndexed (deregister name r)
  unfolding deregister
  deregister-IsIndexed name r v = record {
    agrees = λ id n h.
        ground (
          arith,
          h,
          v.agrees id n,
          lookup-forget_id name id n r v,
          lookup-erase name n r.providers,
        );
  }

  renewed-IsIndexed :
      (name : Text) (t : F) (e : ProviderEntry F) (r : ProviderRegistry F)
      → IsIndexed r
      → lookup name r.providers ≡ some e
      → IsIndexed (record r {
        providers = insert name (record e { last_heartbeat_at = some t }) r.providers;
      })
  renewed-IsIndexed name t e r v here = record {
    agrees = λ id n h. ground (
      arith,
      h,
      here,
      v.agrees id n,
      lookup-insert name n (record e { last_heartbeat_at = some t }) r.providers,
      text_beq_iff name n,
    );
  }

  heartbeat-IsIndexed :
      (id : Text) (t : F) (r : ProviderRegistry F) → IsIndexed r → IsIndexed (heartbeat id t r).0
  unfolding heartbeat
  heartbeat-IsIndexed id t r v = elim (Option-cases (resolve_id id r)) [
    | inl unknown ↦ rw unknown v
    | inr (name, known) ↦ elim (Option-cases (lookup name r.providers)) [
      | inl gone ↦ rw (known, gone) v
      | inr (e, here) ↦ elim (Bool-cases (is_some e.lease_ttl_seconds)) [
        | inl leased ↦ rw (known, here, leased) (renewed-IsIndexed name t e r v here)
        | inr static ↦ rw (known, here, static) v
      ]
    ]
  ]

  perform-IsIndexed : (c : Call F) (r : ProviderRegistry F) → IsIndexed r → IsIndexed (perform c r)
  unfolding perform
  perform-IsIndexed (register req now) r v = register_api-IsIndexed req now r v
  perform-IsIndexed (beat id t) r v = heartbeat-IsIndexed id t r v
  perform-IsIndexed (remove name) r v = deregister-IsIndexed name r v

  -- From a registry whose index agrees with its entries, any dynamic registrations, heartbeats and
  -- removals lead to such a registry: every id of the index leads to a registered entry that has
  -- this id.
  pub discover-IsIndexed :
      (cs : List (Call F)) (r : ProviderRegistry F) → IsIndexed r → IsIndexed (discover cs r)
  unfolding discover
  discover-IsIndexed [] r v = v
  discover-IsIndexed (c ∷ cs) r v = discover-IsIndexed cs (perform c r) (perform-IsIndexed c r v)

  pub new_registry-IsIndexed : IsIndexed (new_registry {F = F})
  new_registry-IsIndexed = record { agrees = λ id n h. ground (arith, h) }
