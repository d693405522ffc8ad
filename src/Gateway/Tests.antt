-- ===== src/Gateway/Tests.antt =====
-- The theorems about the gateway at concrete requests.
use intelli_route_team.Common.{
  ℕ, ◌≡◌, ap, inr, refl, true, Option, none, some, [], ◌∷◌, Text, All, arith,
}
use intelli_route_team.Common.Dict.{Dict}
use intelli_route_team.Common.Strings.{text}
use intelli_route_team.Router.Provider.{CompletionRequest}
use intelli_route_team.Gateway.{
  Json, Reply, Call, router_complete, Request, complete, system_registry, auth, handle,
}
use intelli_route_team.Gateway.Tenants.{IsPermitted, handle-IsPermitted}
use intelli_route_team.Gateway.Errors.{status_of, status-handle, open_served}

-- A JSON value is a string or an object, which has no field or a field before the others.
data Value : Type 0 where
  word : Text → Value
  empty : Value
  field : Text → Value → Value → Value

abbrev with_field : Text → Value → Option (Dict Text Value) → Option (Dict Text Value)
with_field key value none = none
with_field key value (some d) = some ((key, value) ∷ d)

abbrev fields_of : Value → Option (Dict Text Value)
fields_of (word t) = none
fields_of empty = some []
fields_of (field key value rest) = with_field key value (fields_of rest)

abbrev object_of : Dict Text Value → Value
object_of [] = empty
object_of ((key, value) ∷ d) = field key value (object_of d)

fields_of-object_of : (d : Dict Text Value) → fields_of (object_of d) ≡ some d
fields_of-object_of [] = refl
fields_of-object_of ((key, value) ∷ d) = ap (with_field key value) (fields_of-object_of d)

instance abbrev value_json : Json Value
value_json = record {
  str = word;
  obj = object_of;
  fields = fields_of;
  is_completion = λ j. true;
  is_summary = λ j. true;
}

abbrev keys : Dict Text Text
keys = (text "demo-key-123", text "demo-tenant") ∷ (text "vip-key-456", text "vip-tenant") ∷ []

-- A request that names another tenant than its key's.
abbrev forged : CompletionRequest ℕ
forged = record {
  tenant_id = text "vip-tenant";
  team_id = none;
  workflow_id = none;
  messages = record { role = text "user"; content = text "Hi" } ∷ [];
  max_tokens = 16;
  temperature = 0;
  intent_hint = none;
  latency_budget_ms = none;
  confidence_hint = none;
}

abbrev queue_full : Dict Text Value
queue_full = (text "detail", word (text "queue full")) ∷ []

abbrev busy : Reply Value
busy = record { status_code = 503; is_json = true; json = some (object_of queue_full) }

abbrev ask : Call ℕ Value → Option (Reply Value)
ask c = some busy

abbrev nothing : Value
nothing = empty

abbrev forged_request : Request ℕ Value
forged_request = complete (some (text "demo-key-123")) none forged

handle-IsPermitted_example :
    All
      (IsPermitted keys (some (text "demo-key-123")))
      (handle keys (text "t1") ask nothing nothing forged_request).0
handle-IsPermitted_example = handle-IsPermitted keys (text "t1") ask nothing nothing forged_request

status-handle_example :
    status_of (handle keys (text "t1") ask nothing nothing forged_request).1 ≡ 503
unfolding handle auth
status-handle_example =
    status-handle keys (text "t1") ask nothing nothing fields_of-object_of forged_request busy refl
      (inr (object_of queue_full, queue_full, refl, refl)) (omega arith) (refl, tt)

open_served_example :
    status_of (handle {F = ℕ} keys (text "t1") ask nothing nothing system_registry).1 ≡ 200
open_served_example = open_served keys (text "t1") ask nothing nothing system_registry refl

-- The router sees the key's tenant.
forged_tenant :
    (handle keys (text "t1") ask nothing nothing forged_request).0
    ≡ router_complete (record forged { tenant_id = text "demo-tenant" }) (text "t1") ∷ []
unfolding handle auth
forged_tenant = refl
