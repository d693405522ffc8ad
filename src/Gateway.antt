-- ===== src/Gateway.antt =====
-- intelliroute/gateway/main.py: what each endpoint asks of the other services and what it answers.
-- A JSON value is an abstract type; the answer of a service is an argument, `none` for an exception
-- of the HTTP client.
pub mod Tenants
pub mod Errors
mod Tests
use intelli_route_team.Common.{
  ℕ, Bool, true, false, not, Option, none, some, List, [], ◌∷◌, Text, text_eq, if◌then◌else◌,
  nat_beq, leb, ltb, ◌&&◌,
}
use intelli_route_team.Common.Int.{ℤ}
use intelli_route_team.Common.Dict.{Dict, lookup, insert}
use intelli_route_team.Common.Strings.{text}
use intelli_route_team.Router.Provider.{CompletionRequest}

-- What the handlers do with JSON values: make one of a string or of fields, take the
-- fields of an object (`none` where the value is none), and check that one has the form of a
-- completion or of a cost summary.
pub record Json (J : Type 0) : Type 0 where
  pub str : Text → J
  pub obj : Dict Text J → J
  pub fields : J → Option (Dict Text J)
  pub is_completion : J → Bool
  pub is_summary : J → Bool

-- `json` is `none` where `r.json()` raises.
pub record Reply (J : Type 0) : Type 0 where
  pub status_code : ℕ
  pub is_json : Bool
  pub json : Option J

-- A call of another service.
pub data Call (F J : Type 0) : Type 0 where
  router_complete : CompletionRequest F → Text → Call F J
  router_decide : CompletionRequest F → Text → Call F J
  tracker_summary : Text → Call F J
  monitor_snapshot : Call F J
  router_registry : Call F J
  router_force_fail : Text → Bool → Call F J
  router_feedback : Call F J
  router_daily_quotas : Call F J
  router_feedback_submit : Dict Text J → Call F J
  router_feedback_recent : Text → ℤ → Call F J
  router_feedback_summary : Text → Call F J
  router_feedback_analyze : Dict Text J → Call F J

-- A request of a client; the key and the trace id of the header stand first where one is read.
pub data Request (F J : Type 0) : Type 0 where
  health : Request F J
  complete : Option Text → Option Text → CompletionRequest F → Request F J
  cost_summary : Option Text → Request F J
  system_health : Request F J
  system_registry : Request F J
  admin_provider_force_fail : Option Text → Text → Bool → Request F J
  system_feedback_metrics : Request F J
  system_daily_quotas : Request F J
  submit_feedback : Option Text → Dict Text J → Request F J
  feedback_recent : Option Text → ℤ → Request F J
  feedback_summary : Option Text → Request F J
  feedback_analyze : Option Text → Option (Dict Text J) → Request F J
  decide : Option Text → Option Text → CompletionRequest F → Request F J

-- `crashed` is an exception that is no HTTPException.
pub data Answer (J : Type 0) : Type 0 where
  served : J → Answer J
  raised : ℕ → J → Answer J
  crashed : Answer J

-- `API_KEYS.get(api_key)`, after the test for `None`
abbrev find_tenant : Option Text → Dict Text Text → Option Text
find_tenant none keys = none
find_tenant (some k) keys = lookup k keys

-- `_auth`: `none` if it raises
unfoldable pub auth : Option Text → Dict Text Text → Option Text
auth api_key keys = find_tenant api_key keys

-- `x_request_id or str(uuid.uuid4())`
abbrev trace_of : Text → Option Text → Text
trace_of fresh none = fresh
trace_of fresh (some []) = fresh
trace_of fresh (some (c ∷ s)) = c ∷ s

abbrev or_empty : {J : Type 0} → Option (Dict Text J) → Dict Text J
or_empty none = []
or_empty (some d) = d

abbrev is_ok : ℕ → Bool
is_ok status = nat_beq status 200

module _ {J : Type 0} where
  abbrev served_or_crashed : Option J → Answer J
  served_or_crashed none = crashed
  served_or_crashed (some j) = served j

  -- `Model(**r.json())`
  abbrev checked : (J → Bool) → Option J → Answer J
  checked form none = crashed
  checked form (some j) = if form j then served j else crashed

  abbrev with_body : Option J → (J → Answer J) → Answer J
  with_body none k = crashed
  with_body (some j) k = k j

  abbrev raised_with : ℕ → Option J → Answer J
  raised_with status none = crashed
  raised_with status (some detail) = raised status detail

  -- `r.json() if r.status_code == 200 else fallback` within a `try`
  abbrev or_fallback : J → Option J → Answer J
  or_fallback fallback none = served fallback
  or_fallback fallback (some j) = served j

  abbrev json_or : J → Option J → J
  json_or fallback none = fallback
  json_or fallback (some j) = j

module _ {J : Type 0} ⦃js : Json J⦄ where
  abbrev or_default : J → Option J → J
  or_default default none = default
  or_default default (some v) = v

  abbrev get_in : Text → J → Option (Dict Text J) → Option J
  get_in key default none = none
  get_in key default (some d) = some (or_default default (lookup key d))

  -- `value.get(key, default)`: `none` is the AttributeError of a value that is no object.
  abbrev get : Text → J → J → Option J
  get key value default = get_in key default (js.fields value)

  -- `r.json().get("detail", "router error") if _is_json(r) else "router error"`
  abbrev raise_router_error : Reply J → Answer J
  raise_router_error r =
      if r.is_json
      then with_body r.json
          (λ j. raised_with r.status_code (get (text "detail") j (js.str (text "router error"))))
      else raised r.status_code (js.str (text "router error"))

  -- The tail of the handlers that pass the router's body on, errors included:
  -- `detail = r.json() if _is_json(r) else {"detail": "router error"}`
  abbrev pass_detail : Option (Reply J) → Answer J
  pass_detail none = crashed
  pass_detail (some r) =
      let body =
        if r.is_json
        then r.json
        else some (js.obj ((text "detail", js.str (text "router error")) ∷ [])) in
      with_body body (λ j.
        if is_ok r.status_code
        then served j
        else raised_with r.status_code (get (text "detail") j j))

  abbrev pass_completion : Option (Reply J) → Answer J
  pass_completion none = crashed
  pass_completion (some r) =
      if is_ok r.status_code then checked js.is_completion r.json else raise_router_error r

  abbrev pass_rows : Option (Reply J) → Answer J
  pass_rows none = crashed
  pass_rows (some r) =
      if is_ok r.status_code then served_or_crashed r.json else raise_router_error r

  -- `r.raise_for_status()` raises unless the status is a 2xx.
  abbrev pass_summary : Option (Reply J) → Answer J
  pass_summary none = crashed
  pass_summary (some r) =
      if leb 200 r.status_code && ltb r.status_code 300
      then checked js.is_summary r.json
      else crashed

  -- The public views: `try: … if r.status_code != 200: return fallback … except: return fallback`
  abbrev pass_view : J → Option (Reply J) → Answer J
  pass_view fallback none = served fallback
  pass_view fallback (some r) =
      if is_ok r.status_code
      then (if r.is_json then or_fallback fallback r.json else served (js.obj []))
      else served fallback

  -- `r.json() if r.status_code == 200 else {}`, or `{}` where that raises
  abbrev snapshot_of : Option (Reply J) → J
  snapshot_of none = js.obj []
  snapshot_of (some r) = if is_ok r.status_code then json_or (js.obj []) r.json else js.obj []

  -- `payload = dict(body or {}); payload["tenant_id"] = tenant`
  abbrev pub payload_for : Text → Dict Text J → Dict Text J
  payload_for tenant body = insert (text "tenant_id") (js.str tenant) body

abbrev pub for_tenant : {F : Type 0} → Text → CompletionRequest F → CompletionRequest F
for_tenant tenant req = record req { tenant_id = tenant }

module _ {F J : Type 0} ⦃js : Json J⦄ where
  abbrev with_tenant :
      Option Text → (Text → List (Call F J) × Answer J) → List (Call F J) × Answer J
  with_tenant none k = ([], raised 401 (js.str (text "invalid or missing X-API-Key")))
  with_tenant (some tenant) k = k tenant

  -- A handler that needs a key: `tenant = _auth(x_api_key)`, then the rest.
  abbrev authed :
      Option Text
      → Dict Text Text
      → (Text → List (Call F J) × Answer J)
      → List (Call F J) × Answer J
  authed key keys k = with_tenant (auth key keys) k

  module _ (keys : Dict Text Text) (fresh : Text) (ask : Call F J → Option (Reply J))
      (no_registry no_quotas : J) where
    abbrev send : Call F J → (Option (Reply J) → Answer J) → List (Call F J) × Answer J
    send c pass = (c ∷ [], pass (ask c))

    abbrev on_submit_feedback : Option Text → Dict Text J → List (Call F J) × Answer J
    on_submit_feedback key body =
        authed key keys
          λ tenant. send (router_feedback_submit (payload_for tenant body)) pass_detail

    abbrev on_feedback_recent : Option Text → ℤ → List (Call F J) × Answer J
    on_feedback_recent key limit =
        authed key keys λ tenant. send (router_feedback_recent tenant limit) pass_rows

    abbrev on_feedback_summary : Option Text → List (Call F J) × Answer J
    on_feedback_summary key =
        authed key keys λ tenant. send (router_feedback_summary tenant) pass_rows

    abbrev on_feedback_analyze : Option Text → Option (Dict Text J) → List (Call F J) × Answer J
    on_feedback_analyze key body =
        authed key keys
          λ tenant. send (router_feedback_analyze (payload_for tenant (or_empty body))) pass_detail

    abbrev on_decide : Option Text → Option Text → CompletionRequest F → List (Call F J) × Answer J
    on_decide key trace req =
        authed key keys
          λ tenant. send (router_decide (for_tenant tenant req) (trace_of fresh trace)) pass_detail

    -- The calls that a request leads to, and its answer. `fresh` is the new trace id; `no_registry`
    -- and `no_quotas` are the literals that stand for an empty registry and for quotas in error.
    unfoldable pub handle : Request F J → List (Call F J) × Answer J
    handle health = (
      [],
      served (
          js.obj (
            (text "status", js.str (text "healthy"))
            ∷ (text "service", js.str (text "gateway"))
            ∷ [])),
    )
    handle (complete key trace req) = authed key keys λ tenant.
        send (router_complete (for_tenant tenant req) (trace_of fresh trace)) pass_completion
    handle (cost_summary key) = authed key keys λ tenant. send (tracker_summary tenant) pass_summary
    handle system_health =
        send monitor_snapshot λ r. served (js.obj ((text "providers", snapshot_of r) ∷ []))
    handle system_registry = send router_registry (pass_view no_registry)
    handle (admin_provider_force_fail key name fail) =
        authed key keys λ tenant. send (router_force_fail name fail) pass_detail
    handle system_feedback_metrics = send router_feedback (pass_view (js.obj []))
    handle system_daily_quotas = send router_daily_quotas (pass_view no_quotas)
    handle (submit_feedback key body) = on_submit_feedback key body
    handle (feedback_recent key limit) = on_feedback_recent key limit
    handle (feedback_summary key) = on_feedback_summary key
    handle (feedback_analyze key body) = on_feedback_analyze key body
    handle (decide key trace req) = on_decide key trace req
