-- ===== src/Gateway/InvokeTests.antt =====
-- Two invocations of one node of a running run.
use ehfconcept.Prelude.{
  ◌≡◌, ◌≢◌, refl, String, row_count, update_rows, [], ◌∷◌, some, ok, err, compare_texts,
}
use ehfconcept.Contracts.Value.{
  Value, undefined, null, string, object, field, end, array, item, nil,
}
use ehfconcept.Ledger.Row.{Run, new_run, claim_row, reserve_row, record_cost_row}
use ehfconcept.Ledger.Plans.{Plan}
use ehfconcept.Ledger.Store.{empty_db, update_run}
use ehfconcept.Access.Grants.{ExecutionEnvelope}
use ehfconcept.Gateway.Receipts.{GatewayDb}
use ehfconcept.Gateway.Reservations.{IsSpent}
use ehfconcept.Gateway.Invoke.{
  CapabilityRequest, Request, Gateway, Authorized, Others, calling, in_progress, receipt_input,
  begin_invocation, failed, denial_reply,
}
use ehfconcept.Gateway.Callable.{IsPermitted, begin_invocation-IsPermitted}
use ehfconcept.Gateway.Claimed.{here, next, on_ledger, claimed_invocation_is_not_called}
use ehfconcept.Contracts.Canonical.{stable_digest}

abbrev one_text : Value → Value
one_text v = array (item v nil)

abbrev capability : Value
capability =
    object
      (field "id" (string "C") (field "kind" (string "tool") (field "effect" (string "read") end)))

abbrev plan : Plan
plan = record {
  plan_digest = "d";
  plan_id = "PLAN-1";
  content = object (
      field "permissionEnvelopes"
        (one_text (
          object (
            field "nodeId" (string "N") (
              field "capabilities" (one_text (string "C"))
                (field "effects" (one_text (string "read")) (field "digest" (string "p") end))))))
        (field "capabilities" (one_text capability) end));
}

abbrev running : Run
running = claim_row 5 "W" 30 (new_run "R" "T" "K" "d" "q" undefined 1)

abbrev before : GatewayDb
before = record {
  ledger = record empty_db {
    plans = record { tenant_id = "T"; plan_digest = "d"; plan = plan } ∷ [];
    runs = running ∷ [];
  };
  receipts = [];
}

-- The token is the invocation that the envelope is meant for.
abbrev envelope : String → ExecutionEnvelope
envelope id = record {
  invocation_id = id;
  run_id = "R";
  node_id = "N";
  attempt = 1;
  plan_digest = "d";
  permission_digest = "p";
  capabilities = "C" ∷ [];
  effects = "read" ∷ [];
  case_writes = [];
  fencing_epoch = 1;
  ttl = 60;
}

abbrev gateway : Gateway
gateway = record {
  hashing = record { stringify = λ v. "v"; sha256 = λ s. s };
  secret = "s";
  verify_envelope = λ token secret. ok (envelope token);
  number_of = λ v. 5;
  cost_of = λ v. 100;
  provider = λ c input. err "simulator.unavailable";
}

abbrev asked : String → CapabilityRequest
asked id = record { invocation_id = id; capability_id = "C"; effect = "read"; input = null }

abbrev request : String → Request
request id = record {
  caller = ok tt;
  envelope_token = some id;
  body = ok (asked id);
  trace_id = "t";
  span_id = "s";
}

abbrev allowed : String → Authorized
allowed id = record {
  claims = envelope id;
  invocation = asked id;
  plan = plan;
  capability = capability;
}

abbrev alone : Others
alone = record {
  before_plan = λ g. g;
  before_run = λ g. g;
  before_reservation = λ g. g;
  before_result = λ g. g;
  before_cost = λ g. g;
}

abbrev after : GatewayDb
after = (begin_invocation 10 gateway (request "I1") alone before).0

first_calls :
    begin_invocation 10 gateway (request "I1") alone before ≡ (after, calling (allowed "I1"))
unfolding begin_invocation new_run claim_row row_count reserve_row update_rows
first_calls = refl

begin_invocation-IsPermitted_example :
    IsPermitted gateway (request "I1") before.ledger before.ledger before.ledger (allowed "I1")
    × IsSpent 10 (receipt_input gateway (request "I1") (allowed "I1")) before after
begin_invocation-IsPermitted_example =
    begin_invocation-IsPermitted 10 gateway (request "I1") alone before after (allowed "I1")
      first_calls

-- While the provider works on the first invocation, the cost of another comes in.
abbrev meanwhile : GatewayDb
meanwhile = record after { ledger = (update_run "R" (record_cost_row 11 (some 7)) after.ledger).0 }

abbrev second : GatewayDb
second = (begin_invocation 11 gateway (request "I2") alone meanwhile).0

second_calls :
    begin_invocation 11 gateway (request "I2") alone meanwhile ≡ (second, calling (allowed "I2"))
unfolding begin_invocation new_run claim_row row_count reserve_row record_cost_row update_run
    update_rows
second_calls = refl

claimed_invocation_is_not_called_example :
    (allowed "I2").invocation.invocation_id ≢ (allowed "I1").invocation.invocation_id
claimed_invocation_is_not_called_example =
    claimed_invocation_is_not_called 10 11 gateway (request "I1") (request "I2") alone alone before
      after meanwhile second (allowed "I1") (allowed "I2") first_calls
      (next here (on_ledger meanwhile.ledger)) second_calls

again_is_in_progress : (begin_invocation 12 gateway (request "I1") alone after).1 ≡ in_progress
unfolding begin_invocation new_run claim_row row_count reserve_row update_rows stable_digest
again_is_in_progress = refl

denied_is_forbidden : denial_reply "gateway.effect_denied" ≡ failed 403 "gateway.effect_denied"
unfolding denial_reply
denied_is_forbidden = refl

mismatch_is_bad_request :
    denial_reply "gateway.permission_mismatch" ≡ failed 400 "gateway.permission_mismatch"
unfolding denial_reply
mismatch_is_bad_request = refl
