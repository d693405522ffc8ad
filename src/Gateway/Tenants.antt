-- ===== src/Gateway/Tenants.antt =====
-- Who the gateway speaks for.
use intelli_route_team.Common.{
  ◌≡◌, ◌⊎◌, Bool, true, false, Option, none, some, List, inl, inr, [], ◌∷◌, Text, text_eq, All,
  refl,
}
use intelli_route_team.Common.Dict.{Dict, lookup, lookup-insert}
use intelli_route_team.Common.Strings.{text}
use intelli_route_team.Gateway.{
  Json, Reply, Call, router_complete, router_decide, tracker_summary, monitor_snapshot,
  router_registry, router_feedback, router_daily_quotas, router_feedback_submit,
  router_feedback_recent, router_feedback_summary, router_feedback_analyze, Request, health,
  complete, cost_summary, system_health, system_registry, admin_provider_force_fail,
  system_feedback_metrics, system_daily_quotas, submit_feedback, feedback_recent, feedback_summary,
  feedback_analyze, decide, Answer, auth, payload_for, handle, or_empty, with_tenant,
}

module _ {F J : Type 0} where
  -- The key of a request that reads one.
  abbrev pub key_of : Request F J → Option Text
  key_of (complete key _ _) = key
  key_of (cost_summary key) = key
  key_of (admin_provider_force_fail key _ _) = key
  key_of (submit_feedback key _) = key
  key_of (feedback_recent key _) = key
  key_of (feedback_summary key) = key
  key_of (feedback_analyze key _) = key
  key_of (decide key _ _) = key
  key_of _ = none

  -- The calls that only read what concerns no tenant.
  abbrev pub is_view : Call F J → Bool
  is_view monitor_snapshot = true
  is_view router_registry = true
  is_view router_feedback = true
  is_view router_daily_quotas = true
  is_view _ = false

module _ {F J : Type 0} ⦃js : Json J⦄ where
  -- The tenant that a call names; an operator's call names none.
  abbrev pub SpeaksFor : Text → Call F J → Type 0
  SpeaksFor t (router_complete req _) = req.tenant_id ≡ t
  SpeaksFor t (router_decide req _) = req.tenant_id ≡ t
  SpeaksFor t (tracker_summary tenant) = tenant ≡ t
  SpeaksFor t (router_feedback_submit d) = lookup (text "tenant_id") d ≡ some (js.str t)
  SpeaksFor t (router_feedback_recent tenant _) = tenant ≡ t
  SpeaksFor t (router_feedback_summary tenant) = tenant ≡ t
  SpeaksFor t (router_feedback_analyze d) = lookup (text "tenant_id") d ≡ some (js.str t)
  SpeaksFor t _ = Unit

  -- A public view, or a call that the key of the request entitles to.
  abbrev pub IsPermitted : Dict Text Text → Option Text → Call F J → Type 0
  IsPermitted keys key c =
      (is_view c ≡ true) ⊎ ((t : Text) × (auth key keys ≡ some t) × SpeaksFor t c)

  -- A handler makes a call only with a tenant in hand.
  with_tenant-All :
      (P : Call F J → Type 0) (o : Option Text) (k : Text → List (Call F J) × Answer J)
      → ((t : Text) → o ≡ some t → All P (k t).0)
      → All P (with_tenant o k).0
  with_tenant-All P none k h = tt
  with_tenant-All P (some t) k h = h t refl

module _ {F J : Type 0} ⦃js : Json J⦄ (keys : Dict Text Text) (fresh : Text)
    (ask : Call F J → Option (Reply J)) (no_registry no_quotas : J) where
  as_tenant :
      (key : Option Text) (c : Text → Call F J) (answer : Text → Answer J)
      → ((t : Text) → SpeaksFor t (c t))
      → All (IsPermitted keys key) (with_tenant (auth key keys) (λ t. (c t ∷ [], answer t))).0
  as_tenant key c answer h =
      with_tenant-All (IsPermitted keys key) (auth key keys) (λ t. (c t ∷ [], answer t))
        (λ t e. (inr (t, e, h t), tt))

  payload_tenant :
      (body : Dict Text J) (t : Text)
      → lookup (text "tenant_id") (payload_for t body) ≡ some (js.str t)
  payload_tenant body t = lookup-insert (text "tenant_id") (text "tenant_id") (js.str t) body

  -- Whatever a client sends and the services answer, a call of another service that is none of the
  -- four public views is made only if the client's key is known, and the tenant that the call names,
  -- where it names one, is the tenant of that key, not one that the body names.
  pub handle-IsPermitted :
      (rq : Request F J)
      → All (IsPermitted keys (key_of rq)) (handle keys fresh ask no_registry no_quotas rq).0
  unfolding handle
  handle-IsPermitted health = tt
  handle-IsPermitted (complete key trace req) = as_tenant key _ _ λ t. refl
  handle-IsPermitted (cost_summary key) = as_tenant key _ _ λ t. refl
  handle-IsPermitted system_health = (inl refl, tt)
  handle-IsPermitted system_registry = (inl refl, tt)
  handle-IsPermitted (admin_provider_force_fail key name fail) = as_tenant key _ _ λ t. tt
  handle-IsPermitted system_feedback_metrics = (inl refl, tt)
  handle-IsPermitted system_daily_quotas = (inl refl, tt)
  handle-IsPermitted (submit_feedback key body) = as_tenant key _ _ (payload_tenant body)
  handle-IsPermitted (feedback_recent key limit) = as_tenant key _ _ λ t. refl
  handle-IsPermitted (feedback_summary key) = as_tenant key _ _ λ t. refl
  handle-IsPermitted (feedback_analyze key body) =
      as_tenant key _ _ (payload_tenant (or_empty body))
  handle-IsPermitted (decide key trace req) = as_tenant key _ _ λ t. refl
