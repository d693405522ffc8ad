-- ===== src/Gateway/Errors.antt =====
-- The statuses that the gateway answers.
use intelli_route_team.Common.{
  ℕ, ◌≡◌, ◌≢◌, ◌⊎◌, Bool, true, false, Option, none, some, [], ◌∷◌, Text, All, ◌∙◌, ◌==◌, text_eq,
  any_by, if◌then◌else◌, arith, refl,
}
use intelli_route_team.Common.Dict.{Dict, lookup}
use intelli_route_team.Common.Strings.{text}
use intelli_route_team.Gateway.{
  Json, Reply, Call, router_registry, router_feedback, router_daily_quotas, Request, health,
  complete, cost_summary, system_health, system_registry, admin_provider_force_fail,
  system_feedback_metrics, system_daily_quotas, submit_feedback, feedback_recent, feedback_summary,
  feedback_analyze, decide, Answer, served, raised, crashed, auth, handle, with_tenant, pass_view,
  pass_detail, pass_completion, pass_rows,
}
use intelli_route_team.Gateway.Tenants.{key_of}

-- The status of the answer as the framework sends it.
abbrev pub status_of : {J : Type 0} → Answer J → ℕ
status_of (served j) = 200
status_of (raised status j) = status
status_of crashed = 500

module _ {F J : Type 0} where
  -- The requests that are passed on to the router for a tenant or an operator.
  abbrev pub is_relay : Request F J → Bool
  is_relay (complete _ _ _) = true
  is_relay (admin_provider_force_fail _ _ _) = true
  is_relay (submit_feedback _ _) = true
  is_relay (feedback_recent _ _) = true
  is_relay (feedback_summary _) = true
  is_relay (feedback_analyze _ _) = true
  is_relay (decide _ _ _) = true
  is_relay _ = false

  -- The requests that no key is asked for.
  abbrev pub is_open : Request F J → Bool
  is_open health = true
  is_open system_health = true
  is_open system_registry = true
  is_open system_feedback_metrics = true
  is_open system_daily_quotas = true
  is_open _ = false

-- A body that is said to be JSON is a JSON object.
abbrev pub IsReadable : {J : Type 0} ⦃js : Json J⦄ → Reply J → Type 0
IsReadable {J} ⦃js⦄ r =
    (r.is_json ≡ false) ⊎ ((j : J) × (d : Dict Text J) × (r.json ≡ some j) × (js.fields j ≡ some d))

-- Whether the header has one of the keys.
abbrev pub is_known : Dict Text Text → Option Text → Bool
is_known keys none = false
is_known keys (some k) = any_by (λ e. e.0 == k) keys

abbrev status_for : Option Text → ℕ → ℕ
status_for none status = 401
status_for (some tenant) status = status

status_for-lookup :
    (k : Text) (keys : Dict Text Text) (status : ℕ)
    → status_for (lookup k keys) status ≡ (if is_known keys (some k) then status else 401)
status_for-lookup k [] status = refl
status_for-lookup k ((j, t) ∷ keys) status = ground (arith, status_for-lookup k keys status)

status_for-auth :
    (keys : Dict Text Text) (key : Option Text) (status : ℕ)
    → status_for (auth key keys) status ≡ (if is_known keys key then status else 401)
unfolding auth
status_for-auth keys none status = refl
status_for-auth keys (some k) status = status_for-lookup k keys status

module _ {J : Type 0} ⦃js : Json J⦄ (object : (d : Dict Text J) → js.fields (js.obj d) ≡ some d)
    (r : Reply J) (readable : IsReadable r) (failed : r.status_code ≢ 200) where
  status-pass_detail : status_of (pass_detail (some r)) ≡ r.status_code
  status-pass_detail =
      ground (arith, readable, object ((text "detail", js.str (text "router error")) ∷ []))

  status-pass_completion : status_of (pass_completion (some r)) ≡ r.status_code
  status-pass_completion = ground (arith, readable)

  status-pass_rows : status_of (pass_rows (some r)) ≡ r.status_code
  status-pass_rows = ground (arith, readable)

module _ {F J : Type 0} ⦃js : Json J⦄ (keys : Dict Text Text) (fresh : Text)
    (ask : Call F J → Option (Reply J)) (no_registry no_quotas : J) where
  status-granted :
      (o : Option Text) (c : Text → Call F J) (pass : Option (Reply J) → Answer J) (r : Reply J)
      → status_of (pass (some r)) ≡ r.status_code
      → All (λ c. ask c ≡ some r) (with_tenant o (λ t. (c t ∷ [], pass (ask (c t))))).0
      → status_of (with_tenant o (λ t. (c t ∷ [], pass (ask (c t))))).1 ≡ status_for o r.status_code
  status-granted none c pass r h asked = refl
  status-granted (some t) c pass r h asked = rw asked.0 h

  status-with_tenant :
      (key : Option Text) (c : Text → Call F J) (pass : Option (Reply J) → Answer J) (r : Reply J)
      → status_of (pass (some r)) ≡ r.status_code
      → All
          (λ c. ask c ≡ some r)
          (with_tenant (auth key keys) (λ t. (c t ∷ [], pass (ask (c t))))).0
      → status_of (with_tenant (auth key keys) (λ t. (c t ∷ [], pass (ask (c t))))).1
        ≡ (if is_known keys key then r.status_code else 401)
  status-with_tenant key c pass r h asked =
      status-granted (auth key keys) c pass r h asked ∙ status_for-auth keys key r.status_code

  -- A request that is passed on to the router is answered 401 if its header has none of the keys,
  -- and else, where the router's reply `r` is not a 200 (and is a JSON object if its content type
  -- says that it is JSON), with the router's own status.
  pub status-handle :
      (object : (d : Dict Text J) → js.fields (js.obj d) ≡ some d) (rq : Request F J) (r : Reply J)
      → is_relay rq ≡ true
      → IsReadable r
      → r.status_code ≢ 200
      → All (λ c. ask c ≡ some r) (handle keys fresh ask no_registry no_quotas rq).0
      → status_of (handle keys fresh ask no_registry no_quotas rq).1
        ≡ (if is_known keys (key_of rq) then r.status_code else 401)
  unfolding handle
  status-handle object (complete key trace req) r h readable failed asked =
      status-with_tenant key _ pass_completion r (status-pass_completion object r readable failed)
        asked
  status-handle object (admin_provider_force_fail key name fail) r h readable failed asked =
      status-with_tenant key _ pass_detail r (status-pass_detail object r readable failed) asked
  status-handle object (submit_feedback key body) r h readable failed asked =
      status-with_tenant key _ pass_detail r (status-pass_detail object r readable failed) asked
  status-handle object (feedback_recent key limit) r h readable failed asked =
      status-with_tenant key _ pass_rows r (status-pass_rows object r readable failed) asked
  status-handle object (feedback_summary key) r h readable failed asked =
      status-with_tenant key _ pass_rows r (status-pass_rows object r readable failed) asked
  status-handle object (feedback_analyze key body) r h readable failed asked =
      status-with_tenant key _ pass_detail r (status-pass_detail object r readable failed) asked
  status-handle object (decide key trace req) r h readable failed asked =
      status-with_tenant key _ pass_detail r (status-pass_detail object r readable failed) asked
  status-handle object health r h readable failed asked = cc
  status-handle object (cost_summary key) r h readable failed asked = cc
  status-handle object system_health r h readable failed asked = cc
  status-handle object system_registry r h readable failed asked = cc
  status-handle object system_feedback_metrics r h readable failed asked = cc
  status-handle object system_daily_quotas r h readable failed asked = cc

  view_served : (fallback : J) (o : Option (Reply J)) → status_of (pass_view fallback o) ≡ 200
  view_served fallback o = ground arith

  -- The requests that need no key are answered 200, whatever the services reply and also where they
  -- cannot be reached.
  pub open_served :
      (rq : Request F J)
      → is_open rq ≡ true
      → status_of (handle keys fresh ask no_registry no_quotas rq).1 ≡ 200
  unfolding handle
  open_served system_registry h = view_served no_registry (ask router_registry)
  open_served system_feedback_metrics h = view_served (js.obj []) (ask router_feedback)
  open_served system_daily_quotas h = view_served no_quotas (ask router_daily_quotas)
  open_served health h = refl
  open_served system_health h = refl
  open_served _ h = cc
