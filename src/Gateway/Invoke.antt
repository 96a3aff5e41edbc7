-- ===== src/Gateway/Invoke.antt =====
-- apps/capability-gateway/src/app.ts: the handler of POST /v1/invoke. The workload guard, the token
-- library, the request schema, the reading of numbers and the providers are parameters.
use ehfconcept.Prelude.{
  ℕ, Bool, ◌||◌, String, Option, none, some, ◌==◌, compare_texts, compare_numbers, if◌then◌else◌,
  find, includes, Result, ok, err, ◌>>=◌, ◌>>◌, require,
}
use ehfconcept.Contracts.Value.{Value, object, string, null, Fields, end, field}
use ehfconcept.Contracts.Canonical.{Hashing, stable_digest}
use ehfconcept.Contracts.Read.{contains, property, elements, text, texts}
use ehfconcept.Ledger.Row.{Budget}
use ehfconcept.Ledger.Plans.{Plan, get_plan}
use ehfconcept.Ledger.Store.{Db, get_run, current_fencing_epoch}
use ehfconcept.Access.Grants.{ExecutionEnvelope}
use ehfconcept.Access.Broker.{present, find_permission}
use ehfconcept.Gateway.Receipts.{
  CapabilityResult, GatewayReceiptInput, GatewayDb, Reservation, reserve_gateway_receipt,
  complete_gateway_receipt, abandon_gateway_receipt, record_capability_cost,
}

pub record CapabilityRequest : Type 0 where
  pub invocation_id : String
  pub capability_id : String
  pub effect : String
  pub input : Value

-- A request: what the workload guard says of the caller, the trimmed envelope header, and what the schema
-- makes of the body.
pub record Request : Type 0 where
  pub caller : Result String (Unit {0})
  pub envelope_token : Option String
  pub body : Result String CapabilityRequest
  pub trace_id : String
  pub span_id : String

-- What a provider answers.
pub record Adapted : Type 0 where
  pub output : Value
  pub provider : Value
  pub model : Value
  pub provider_request_id : Value
  pub input_tokens : Value
  pub output_tokens : Value
  pub cost : Value
  pub cost_usd : Option ℕ

pub record Gateway : Type 0 where
  pub hashing : Hashing
  pub secret : String
  pub verify_envelope : String → String → Result String ExecutionEnvelope
  pub number_of : Value → ℕ
  pub cost_of : Value → ℕ
  -- The provider that a capability is bound to, on an input.
  pub provider : Value → Value → Result String Adapted

unfoldable pub expected_denial : String → Bool
unfolding contains
expected_denial code =
    contains code "denied" || contains code "authorization" || contains code "stale_fence"

unfoldable pub find_capability : Plan → String → Option Value
unfolding property elements text
find_capability plan capability_id =
    find (λ c. text (property "id" c) == capability_id)
      (elements (property "capabilities" plan.content))

unfoldable pub has_capability : Value → String → Bool
unfolding property elements texts
has_capability permission capability_id =
    includes (texts (elements (property "capabilities" permission))) capability_id

unfoldable pub has_effect : Value → String → Bool
unfolding property elements texts
has_effect permission effect = includes (texts (elements (property "effects" permission))) effect

-- The handler opens a transaction for each of its statements. What other transactions make of the database
-- in between.
pub record Others : Type 0 where
  pub before_plan : GatewayDb → GatewayDb
  pub before_run : GatewayDb → GatewayDb
  pub before_reservation : GatewayDb → GatewayDb
  pub before_result : GatewayDb → GatewayDb
  pub before_cost : GatewayDb → GatewayDb

-- What the reads of the plan and of the run, and the reservation, find. The read of the fence comes first.
abbrev pub at_plan : Others → GatewayDb → GatewayDb
at_plan others g = others.before_plan g

abbrev pub at_run : Others → GatewayDb → GatewayDb
at_run others g = others.before_run (others.before_plan g)

abbrev pub at_reservation : Others → GatewayDb → GatewayDb
at_reservation others g = others.before_reservation (others.before_run (others.before_plan g))

pub record Authorized : Type 0 where
  pub claims : ExecutionEnvelope
  pub invocation : CapabilityRequest
  pub plan : Plan
  pub capability : Value

-- The three reads find the databases that are given.
unfoldable pub authorize : Gateway → Request → Db → Db → Db → Result String Authorized
unfolding current_fencing_epoch get_plan find_permission find_capability has_capability has_effect
    get_run property text
authorize gateway request fence_db plan_db run_db = do
  request.caller
  token ← present request.envelope_token "gateway.execution_envelope_missing"
  claims ← gateway.verify_envelope token gateway.secret
  invocation ← request.body
  require (claims.invocation_id == invocation.invocation_id) "gateway.invocation_mismatch"
  require (includes claims.capabilities invocation.capability_id) "gateway.capability_denied"
  require (includes claims.effects invocation.effect) "gateway.effect_denied"
  epoch ← present (current_fencing_epoch claims.run_id fence_db) "gateway.stale_fence"
  require (epoch == claims.fencing_epoch) "gateway.stale_fence"
  plan ← present (get_plan claims.plan_digest none plan_db.plans) "gateway.plan_not_admitted"
  permission ← present (find_permission plan claims.node_id) "gateway.permission_mismatch"
  require (text (property "digest" permission) == claims.permission_digest)
      "gateway.permission_mismatch"
  require (has_capability permission invocation.capability_id) "gateway.capability_denied"
  require (has_effect permission invocation.effect) "gateway.effect_denied"
  capability ←
      present (find_capability plan invocation.capability_id) "gateway.capability_contract_mismatch"
  require (text (property "effect" capability) == invocation.effect)
      "gateway.capability_contract_mismatch"
  present (get_run claims.run_id none run_db) "gateway.run_not_found"
  ok (record { claims = claims; invocation = invocation; plan = plan; capability = capability })

abbrev pub request_value : CapabilityRequest → Value
request_value r = object (
    field "invocationId" (string r.invocation_id) (
      field "capabilityId" (string r.capability_id)
        (field "effect" (string r.effect) (field "input" r.input end))))

abbrev pub is_model : Value → Bool
is_model capability = text (property "kind" capability) == "model"

unfoldable pub plan_budget : Gateway → Plan → Budget
unfolding property
plan_budget gateway plan =
    let budgets = property "budgets" plan.content in
    record {
      max_capability_calls = gateway.number_of (property "maxCapabilityCalls" budgets);
      max_model_calls = gateway.number_of (property "maxModelCalls" budgets);
      max_cost_usd = gateway.cost_of (property "maxCostUsd" budgets);
    }

unfoldable pub receipt_input : Gateway → Request → Authorized → GatewayReceiptInput
unfolding plan_budget
receipt_input gateway request a = record {
  invocation_id = a.invocation.invocation_id;
  run_id = a.claims.run_id;
  node_id = a.claims.node_id;
  attempt = a.claims.attempt;
  fencing_epoch = a.claims.fencing_epoch;
  plan_digest = a.claims.plan_digest;
  permission_digest = a.claims.permission_digest;
  capability_id = a.invocation.capability_id;
  effect = a.invocation.effect;
  decision = "allowed";
  reason_code = "permission.envelope_allowed";
  request_digest = stable_digest gateway.hashing (request_value a.invocation);
  trace_id = some request.trace_id;
  span_id = some request.span_id;
  model_call = is_model a.capability;
  budget = plan_budget gateway a.plan;
}

-- What the handler has come to when it is about to call a provider, or without calling one.
pub data Begun : Type 0 where
  calling : Authorized → Begun
  replayed : CapabilityResult → Begun
  in_progress : Begun
  refused : String → Begun

unfoldable pub reserved_answer : Authorized → Result String Reservation → Begun
reserved_answer a (err e) = refused e
reserved_answer a (ok r) =
    if r.created
    then calling a
    else elim r.result [ none ↦ in_progress | some result ↦ replayed result ]

-- The handler up to the call of the provider. A refusal writes nothing, and the reservation looks at the fence
-- no more.
unfoldable pub begin_invocation : ℕ → Gateway → Request → Others → GatewayDb → GatewayDb × Begun
unfolding authorize receipt_input reserve_gateway_receipt reserved_answer
begin_invocation now gateway request others g =
    let g' = at_reservation others g in
    elim (authorize gateway request g.ledger (at_plan others g).ledger (at_run others g).ledger) [
      | err e ↦ (g', refused e)
      | ok a ↦
          let reserved = reserve_gateway_receipt now (receipt_input gateway request a) g' in
          (reserved.0, reserved_answer a reserved.1)
    ]

pub data Reply : Type 0 where
  succeeded : CapabilityResult → Reply
  failed : ℕ → String → Reply

unfoldable pub denial_reply : String → Reply
unfolding expected_denial
denial_reply message = failed (if expected_denial message then 403 else 400) message

unfoldable pub result_of : Gateway → CapabilityRequest → Adapted → Value → CapabilityResult
result_of gateway invocation adapter latency_ms =
    let unsigned = λ (rest : Fields). object (
      field "invocationId" (string invocation.invocation_id) (
        field "capabilityId" (string invocation.capability_id) (
          field "status" (string "succeeded") (
            field "output" adapter.output (
              field "errorCode" null (
                field "provider" adapter.provider (
                  field "model" adapter.model (
                    field "providerRequestId" adapter.provider_request_id (
                      field "usage"
                        (object (
                          field "inputTokens" adapter.input_tokens (
                            field "outputTokens" adapter.output_tokens
                              (field "costUsd" adapter.cost end))))
                        (field "latencyMs" latency_ms rest)))))))))) in
    let digest = stable_digest gateway.hashing (unsigned end) in
    record {
      invocation_id = invocation.invocation_id;
      receipt_digest = digest;
      document = unsigned (field "receiptDigest" (string digest) end);
    }

-- What follows the call of the provider: a failed call gives the claim free, a successful one keeps it.
unfoldable pub finish_invocation :
    ℕ
    → Value
    → Gateway
    → Authorized
    → Others
    → Result String Adapted
    → GatewayDb
    → GatewayDb × Reply
unfolding abandon_gateway_receipt denial_reply result_of complete_gateway_receipt
    record_capability_cost
finish_invocation now latency_ms gateway a others (err e) g =
    (abandon_gateway_receipt a.claims.run_id a.invocation.invocation_id g, denial_reply e)
finish_invocation now latency_ms gateway a others (ok adapter) g =
    let result = result_of gateway a.invocation adapter latency_ms in
    (
      record_capability_cost now a.claims.run_id adapter.cost_usd
          (others.before_cost (complete_gateway_receipt now a.claims.run_id result g)),
      succeeded result,
    )

-- The whole handler.
unfoldable pub invoke : ℕ → ℕ → Value → Gateway → Request → Others → GatewayDb → GatewayDb × Reply
unfolding begin_invocation finish_invocation denial_reply
invoke now later latency_ms gateway request others g =
    let begun = begin_invocation now gateway request others g in
    elim begun.1 [
      | refused e ↦ (begun.0, denial_reply e)
      | replayed result ↦ (begun.0, succeeded result)
      | in_progress ↦ (begun.0, failed 409 "gateway.invocation_in_progress")
      | calling a ↦
          finish_invocation later latency_ms gateway a others
            (gateway.provider a.capability a.invocation.input) (others.before_result begun.0)
    ]
