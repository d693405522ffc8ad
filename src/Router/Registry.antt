-- ===== src/Router/Registry.antt =====
-- `ProviderRegistry` of intelliroute/router/registry.py. The lock makes each method one step; the
-- reading of `time.time()` is an argument.
pub mod Index
pub mod Lease
mod Tests
use intelli_route_team.Common.{
  ℕ, Bool, true, false, not, ◌&&◌, Option, none, some, List, [], ◌∷◌, map, Text, text_eq, ◌==◌,
  filter_by, foldl_by, if◌then◌else◌,
}
use intelli_route_team.Common.Dict.{Dict, lookup, insert, erase, is_some}
use intelli_route_team.Common.Float.{Float}
use intelli_route_team.Common.Strings.{text, strip}
use intelli_route_team.Router.Provider.{ProviderInfo}

-- `ProviderRegisterRequest` of common/models.py
pub record ProviderRegisterRequest (F : Type 0) : Type 0 where
  pub provider_id : Text
  pub provider : ProviderInfo F
  pub lease_ttl_seconds : F
  pub registration_source : Text
  pub model_tier : Text

pub record ProviderEntry (F : Type 0) : Type 0 where
  pub info : ProviderInfo F
  pub provider_id : Text
  pub lease_ttl_seconds : Option F
  pub last_heartbeat_at : Option F
  pub registration_source : Text
  pub model_tier : Text
  pub registered_at : F

pub record ProviderRegistry (F : Type 0) : Type 0 where
  pub providers : Dict Text (ProviderEntry F)
  pub id_to_name : Dict Text Text

-- `a or b` on strings
abbrev or_text : Text → Text → Text
or_text [] b = b
or_text (c ∷ t) b = c ∷ t

-- `(req.provider_id or req.provider.name).strip()`
abbrev pub request_id : {F : Type 0} → ProviderRegisterRequest F → Text
request_id req = strip (or_text req.provider_id req.provider.name)

-- `d.get(k) == v`
abbrev pub points_to : Text → Text → Dict Text Text → Bool
points_to k v d = elim (lookup k d) [ none ↦ false | some w ↦ w == v ]

module _ {F : Type 0} where
  abbrev pub new_registry : ProviderRegistry F
  new_registry = record { providers = []; id_to_name = [] }

  unfoldable pub register_bootstrap : ProviderInfo F → F → ProviderRegistry F → ProviderRegistry F
  register_bootstrap info now r = record {
    providers =
        insert info.name
          (record {
            info = info;
            provider_id = info.name;
            lease_ttl_seconds = none;
            last_heartbeat_at = none;
            registration_source = text "bootstrap";
            model_tier = info.provider_type;
            registered_at = now;
          })
          r.providers;
    id_to_name = insert info.name info.name r.id_to_name;
  }

  -- The index without the id of the entry that is replaced or removed, if the id led to the name.
  abbrev pub forget_id : Text → Option (ProviderEntry F) → Dict Text Text → Dict Text Text
  forget_id name none d = d
  forget_id name (some e) d = if points_to e.provider_id name d then erase e.provider_id d else d

  -- The entry that `register_api` stores.
  abbrev pub api_entry : ProviderRegisterRequest F → F → ProviderEntry F
  api_entry req now = record {
    info = req.provider;
    provider_id = request_id req;
    lease_ttl_seconds = some req.lease_ttl_seconds;
    last_heartbeat_at = some now;
    registration_source = req.registration_source;
    model_tier = or_text req.model_tier req.provider.provider_type;
    registered_at = now;
  }

  unfoldable pub register_api :
      ProviderRegisterRequest F → F → ProviderRegistry F → ProviderRegistry F
  register_api req now r =
      let name = req.provider.name in
      record {
        providers = insert name (api_entry req now) (erase name r.providers);
        id_to_name =
            insert (request_id req) name (forget_id name (lookup name r.providers) r.id_to_name);
      }

  -- The name that a heartbeat is for.
  abbrev pub resolve_id : Text → ProviderRegistry F → Option Text
  resolve_id provider_id r = elim (lookup provider_id r.id_to_name) [
    | some name ↦ some name
    | none ↦ if is_some (lookup provider_id r.providers) then some provider_id else none
  ]

  abbrev renew :
      Text → F → Option (ProviderEntry F) → ProviderRegistry F → ProviderRegistry F × Bool
  renew name t none r = (r, false)
  renew name t (some e) r =
      if is_some e.lease_ttl_seconds
      then (
        record r { providers = insert name (record e { last_heartbeat_at = some t }) r.providers },
        true,
      )
      else (r, false)

  abbrev renew_named : Option Text → F → ProviderRegistry F → ProviderRegistry F × Bool
  renew_named none t r = (r, false)
  renew_named (some name) t r = renew name t (lookup name r.providers) r

  -- `heartbeat` at the time `t`
  unfoldable pub heartbeat : Text → F → ProviderRegistry F → ProviderRegistry F × Bool
  heartbeat provider_id t r = renew_named (resolve_id provider_id r) t r

  unfoldable pub deregister : Text → ProviderRegistry F → ProviderRegistry F
  deregister name r = record {
    providers = erase name r.providers;
    id_to_name = forget_id name (lookup name r.providers) r.id_to_name;
  }

  unfoldable pub get_entry : Text → ProviderRegistry F → Option (ProviderEntry F)
  get_entry name r = lookup name r.providers

  unfoldable pub bulk_register : List (ProviderInfo F) → F → ProviderRegistry F → ProviderRegistry F
  bulk_register ps now r = foldl_by (λ s p. register_bootstrap p now s) r ps

module _ {F : Type 0} ⦃fl : Float F⦄ where
  open fl use {sub, fle}

  abbrev within_lease : Option F → Option F → F → Bool
  within_lease none last now = true
  within_lease (some ttl) none now = false
  within_lease (some ttl) (some last) now = fle (sub now last) ttl

  unfoldable pub is_routable : F → ProviderEntry F → Bool
  is_routable now e = within_lease e.lease_ttl_seconds e.last_heartbeat_at now

  unfoldable pub all_active : F → ProviderRegistry F → List (ProviderInfo F)
  all_active now r = map (λ kv. kv.1.info) (filter_by (λ kv. is_routable now kv.1) r.providers)

  unfoldable pub stale_names : F → ProviderRegistry F → List Text
  stale_names now r = map (λ kv. kv.0) (filter_by (λ kv. not (is_routable now kv.1)) r.providers)

-- The calls of the discovery endpoints of router/main.py.
pub data Call (F : Type 0) : Type 0 where
  register : ProviderRegisterRequest F → F → Call F
  beat : Text → F → Call F
  remove : Text → Call F

module _ {F : Type 0} where
  unfoldable pub perform : Call F → ProviderRegistry F → ProviderRegistry F
  perform (register req now) r = register_api req now r
  perform (beat id t) r = (heartbeat id t r).0
  perform (remove name) r = deregister name r

  unfoldable pub discover : List (Call F) → ProviderRegistry F → ProviderRegistry F
  discover [] r = r
  discover (c ∷ cs) r = discover cs (perform c r)
